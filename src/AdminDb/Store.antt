-- ===== src/AdminDb/Store.antt =====
-- The database file of modules/admindb/admindb.h: its header, its records and their links. The lists
-- are a `Links` each. The padding and the versions of the records are left out.
use efnet_services.Common.{ℕ, Bool, update}
use efnet_services.Links.{Links, Chain}
use efnet_services.Run.{Text, Call}
use efnet_services.Region
use efnet_services.Region.{Region, Disk}
use efnet_services.Table.{Table}
use efnet_services.ChanfixDb.Hash.{hash_compute_client}

-- struct _siadmin_info, without the fields about space
pub record Info : Type 0 where
  pub hashtable_size : ℕ
  pub num_accounts : ℕ
  pub accounts : ℕ

-- struct _siadmin_account, without its links
pub record Account : Type 0 where
  pub size : ℕ
  pub hashv : ℕ
  pub last_login : ℕ
  pub login_fail_time : ℕ
  pub login_fail_num : ℕ
  pub passwd_fail_time : ℕ
  pub passwd_fail_num : ℕ
  pub expires : ℕ
  pub flags : ℕ
  pub passwd : Text
  pub userhosts : ℕ
  pub userhosts_num : ℕ
  pub name : Text

-- struct _siadmin_userhost, without its links; `server` is the text at `auh_server_offset`.
pub record UserHost : Type 0 where
  pub size : ℕ
  pub account_offset : ℕ
  pub userhost : Text
  pub server : Text

-- struct _siadmindb and the file behind it
pub record AdminDb : Type 0 where
  pub info : Info
  pub region : Region
  pub buckets : ℕ → ℕ
  pub account : ℕ → Account
  pub account_h : Links
  pub account_a : Links
  pub userhost : ℕ → UserHost
  pub userhost_a : Links

-- What the code takes from the platform and from libnnmatch: tolower of a byte, whether strcasecmp of
-- two names and ircd_match of a mask and a text return 0, the calls on files, and the sizes of the two
-- structs.
pub record Platform : Type 0 where
  pub to_lower : ℕ → ℕ
  pub same_name : Text → Text → Bool
  pub matches : Text → Text → Bool
  pub disk : Disk
  pub account_bytes : ℕ
  pub userhost_bytes : ℕ

abbrev pub write_account : ℕ → Account → AdminDb → AdminDb
write_account p a db = record db { account = update db.account p a }

abbrev pub write_userhost : ℕ → UserHost → AdminDb → AdminDb
write_userhost p u db = record db { userhost = update db.userhost p u }

abbrev pub all_accounts : AdminDb → Chain
all_accounts db = record { first = db.info.accounts; links = db.account_a }

abbrev pub account_bucket : ℕ → AdminDb → Chain
account_bucket hv db = record { first = db.buckets hv; links = db.account_h }

abbrev pub userhosts_of : ℕ → AdminDb → Chain
userhosts_of acct db = record { first = (db.account acct).userhosts; links = db.userhost_a }

-- The accounts as a hash table.
abbrev pub table_of : AdminDb → Table
table_of db = record {
  slots = db.info.hashtable_size;
  num = db.info.num_accounts;
  first = db.info.accounts;
  hashv = λ c. (db.account c).hashv;
  buckets = db.buckets;
  hash_links = db.account_h;
  all_links = db.account_a;
}

-- A call on the space of the file, which leaves the rest as it is.
abbrev pub on_region {ℓ} : {A : Type ℓ} → Call Region A → Call AdminDb A
on_region call db = let r = call db.region in (r.0, record db { region = r.1 })

-- _siadmindb_check
unfoldable pub check : Platform → Call AdminDb (Unit {0})
check calls = on_region (Region.check calls.disk)

-- _siadmindb_del_space
unfoldable pub del_space : ℕ → ℕ → AdminDb → AdminDb
del_space pos size db = record db { region = Region.del_space pos size db.region }

-- _siadmindb_get_space; a file that is too short gets 128 kilobytes to spare.
unfoldable pub get_space : Platform → ℕ → Call AdminDb (ℕ × ℕ)
get_space calls wanted = on_region (Region.get_space calls.disk 0x2_0000 wanted)

-- _sihash_compute, on the table of _sihash_init
abbrev pub hash_compute : Platform → Text → ℕ
hash_compute calls = hash_compute_client calls.to_lower
