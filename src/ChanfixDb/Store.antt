-- ===== src/ChanfixDb/Store.antt =====
-- The database file of modules/chanfixdb/chanfixdb.h: its header, its records and their links.
-- A position is an offset into the mapped file. Each record type has the records at all positions as
-- a function; the `_prev` and `_next` fields of each list are a `Links` of their own. `npos` is
-- (u_int)-1. A u_int keeps its wrap-around.
use efnet_services.Common.{ℕ, List, Bool, update}
use efnet_services.Links.{Links, Chain, Ends}
use efnet_services.Run.{Text, Call}
use efnet_services.Region
use efnet_services.Region.{Region, Disk}

-- struct _chanfix_info, without the fields about space
pub record Info : Type 0 where
  pub checks : ℕ
  pub hashtable_size : ℕ
  pub num_channels : ℕ
  pub channels : ℕ
  pub num_chanusers : ℕ
  pub chanusers : ℕ

-- struct _chanfix_chanmode
pub record ChanMode : Type 0 where
  pub modes : ℕ
  pub last_seen : ℕ
  pub tot_score : ℕ
  pub scores : List ℕ

-- struct _chanfix_chan, without its links
pub record Chan : Type 0 where
  pub size : ℕ
  pub hashv : ℕ
  pub last_seen : ℕ
  pub checks : ℕ
  pub modes : List ChanMode
  pub flags : ℕ
  pub fixed_time : ℕ
  pub fixed_passes : ℕ
  pub users_sorted_first : ℕ
  pub users_sorted_last : ℕ
  pub users_offset : ℕ → ℕ
  pub users_num : ℕ
  pub name : Text

-- struct _chanfix_chanuser, without its links
pub record ChanUser : Type 0 where
  pub size : ℕ
  pub hashv : ℕ
  pub last_seen : ℕ
  pub chan_offset : ℕ
  pub tot_score : ℕ
  pub scores : List ℕ
  pub userhost : Text

-- struct _chanfixdb and the file behind it.
pub record ChanfixDb : Type 0 where
  pub info : Info
  pub region : Region
  pub buckets : ℕ → ℕ
  pub chan : ℕ → Chan
  pub chan_h : Links
  pub chan_a : Links
  pub user : ℕ → ChanUser
  pub user_s : Links
  pub user_h : Links
  pub user_a : Links

-- What the code takes from the platform and from libnnmatch: tolower of a byte as a u_int, whether
-- ircd_strcmp returns 0, the calls on files, and the sizes of the two structs.
pub record Platform : Type 0 where
  pub to_lower : ℕ → ℕ
  pub same_text : Text → Text → Bool
  pub disk : Disk
  pub chan_bytes : ℕ
  pub chanuser_bytes : ℕ

abbrev pub write_chan : ℕ → Chan → ChanfixDb → ChanfixDb
write_chan p c db = record db { chan = update db.chan p c }

abbrev pub write_user : ℕ → ChanUser → ChanfixDb → ChanfixDb
write_user p u db = record db { user = update db.user p u }

-- The heads of the lists, with the links of their records.
abbrev pub all_chans : ChanfixDb → Chain
all_chans db = record { first = db.info.channels; links = db.chan_a }

abbrev pub all_users : ChanfixDb → Chain
all_users db = record { first = db.info.chanusers; links = db.user_a }

abbrev pub chan_bucket : ℕ → ChanfixDb → Chain
chan_bucket hv db = record { first = db.buckets hv; links = db.chan_h }

abbrev pub user_bucket : ℕ → ℕ → ChanfixDb → Chain
user_bucket chan hv db = record { first = (db.chan chan).users_offset hv; links = db.user_h }

abbrev pub sorted_users : ℕ → ChanfixDb → Ends
sorted_users chan db = record {
  first = (db.chan chan).users_sorted_first;
  last = (db.chan chan).users_sorted_last;
  links = db.user_s;
}

-- A call on the space of the file, which leaves the rest as it is.
abbrev pub on_region {ℓ} : {A : Type ℓ} → Call Region A → Call ChanfixDb A
on_region call db = let r = call db.region in (r.0, record db { region = r.1 })

-- _chanfixdb_check
unfoldable pub check : Platform → Call ChanfixDb (Unit {0})
check calls = on_region (Region.check calls.disk)
