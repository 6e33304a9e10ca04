-- ===== src/ChanfixDb/Channel.antt =====
-- The channels of the database: chanfixdb_channel_find, chanfixdb_channel_create and
-- chanfixdb_channel_remove of modules/chanfixdb/chanfixdb.c. The locking functions there are empty
-- and do not fail. A chain is searched with fuel for one record more than there are channels.
pub mod Index
pub mod Named
pub mod Find
pub mod Create
pub mod Whole
use efnet_services.Common.{
  ℕ, zero, suc, ◌+◌, ◌%◌, Bool, Option, none, some, ◌&&◌, ◌==◌, if◌then◌else◌, update, replicate,
  length, not,
}
use efnet_services.Links.{add_to_list, del_from_list, scan}
use efnet_services.Run.{
  Result, done, fail, enoent, eexist, stuck, npos, add32, sub32, Call, ◌>>=◌, ◌>>◌, continue, Text,
}
use efnet_services.ChanfixDb.Store.{
  ChanfixDb, Chan, ChanMode, Platform, write_chan, all_chans, chan_bucket, check,
}
use efnet_services.ChanfixDb.Hash.{hash_compute_channel}
use efnet_services.ChanfixDb.Space.{del_space, get_space}

abbrev pub no_mode : ChanMode
no_mode = record { modes = 0; last_seen = 0; tot_score = 0; scores = replicate 14 0 }

-- The fields that chanfixdb_channel_create sets.
abbrev pub new_chan : Text → ℕ → ℕ → Chan
new_chan name size hashv = record {
  size = size;
  hashv = hashv;
  last_seen = 0;
  checks = 0;
  modes = replicate 5 no_mode;
  flags = 0;
  fixed_time = 0;
  fixed_passes = 0;
  users_sorted_first = npos;
  users_sorted_last = npos;
  users_offset = λ _. npos;
  users_num = 0;
  name = name;
}

-- The part of chanfixdb_channel_create that sets the fields and links the record.
unfoldable pub fill_chan : Text → ℕ → ℕ → ℕ → ChanfixDb → ChanfixDb
fill_chan name pos size hashv db =
    let hv = hashv % db.info.hashtable_size in
    let h = add_to_list npos pos (chan_bucket hv db) in
    let a = add_to_list npos pos (all_chans db) in
    record db {
      chan = update db.chan pos (new_chan name size hashv);
      chan_h = h.links;
      buckets = update db.buckets hv h.first;
      chan_a = a.links;
      info = record (db.info) { channels = a.first; num_channels = add32 db.info.num_channels 1 };
    }

module _ (calls : Platform) where
  -- The test of the loop of _chanfixdb_channel_find.
  abbrev pub is_chan : ChanfixDb → Text → ℕ → ℕ → Bool
  is_chan db name hashv pos =
      (db.chan pos).hashv == hashv && calls.same_text name (db.chan pos).name

  -- That loop: the first channel that passes, or `npos`.
  unfoldable pub chan_loop : ℕ → ChanfixDb → Text → ℕ → ℕ → Option ℕ
  unfolding scan
  chan_loop fuel db name hashv pos = scan npos fuel (is_chan db name hashv) db.chan_h pos

  -- _chanfixdb_channel_find
  unfoldable pub find_in_bucket : ChanfixDb → ℕ → Text → ℕ → Result ℕ
  unfolding chan_loop
  find_in_bucket db first name hashv =
      elim (chan_loop (suc db.info.num_channels) db name hashv first) [
        | none ↦ fail stuck
        | some pos ↦ if pos == npos then fail enoent else done pos
      ]

  -- chanfixdb_channel_find
  unfoldable pub channel_find : Text → Call ChanfixDb ℕ
  channel_find name = check calls >> λ db.
      let hashv = hash_compute_channel calls.to_lower name in
      (find_in_bucket db (db.buckets (hashv % db.info.hashtable_size)) name hashv, db)

  -- The rest of it, from the writes of `cfc_size` and `cfc_hashv` on.
  unfoldable pub create_at : Text → ℕ × ℕ → Call ChanfixDb ℕ
  create_at name (pos, size) db =
      let hashv = hash_compute_channel calls.to_lower name in
      let db₁ = write_chan pos (record (db.chan pos) { size = size; hashv = hashv }) db in
      elim (find_in_bucket db₁ (db₁.buckets (hashv % db₁.info.hashtable_size)) name hashv) [
        | done _ ↦ (fail eexist, del_space pos size db₁)
        | fail stuck ↦ (fail stuck, db₁)
        | fail _ ↦ (done pos, fill_chan name pos size hashv db₁)
      ]

  -- chanfixdb_channel_create
  unfoldable pub channel_create : Text → Call ChanfixDb ℕ
  channel_create name =
      check calls >> (get_space calls (add32 calls.chan_bytes (length name)) >>= create_at name)

-- _chanfixdb_channel_remove
unfoldable pub unlink_chan : ℕ → ChanfixDb → ChanfixDb
unlink_chan pos db =
    let a = del_from_list npos pos (all_chans db) in
    let hv = (db.chan pos).hashv % db.info.hashtable_size in
    let h = del_from_list npos pos (chan_bucket hv db) in
    del_space pos (db.chan pos).size (record db {
      chan_a = a.links;
      chan_h = h.links;
      buckets = update db.buckets hv h.first;
      info = record (db.info) { channels = a.first; num_channels = sub32 db.info.num_channels 1 };
    })

-- chanfixdb_channel_remove
unfoldable pub channel_remove : ℕ → Call ChanfixDb (Unit {0})
channel_remove pos db =
    if not ((db.chan pos).users_num == 0) then (fail eexist, db) else (done tt, unlink_chan pos db)

-- The loop of chanfixdb_channel_cleanup; `stuck` when the fuel runs out.
unfoldable pub cleanup_loop : ℕ → ℕ → Call ChanfixDb (Unit {0})
unfolding channel_remove
cleanup_loop zero pos db = (fail stuck, db)
cleanup_loop (suc fuel) pos db =
    let next = db.chan_a.next pos in
    let rest =
      cleanup_loop fuel next
        (if (db.chan pos).users_num == 0 then (channel_remove pos db).1 else db) in
    if pos == npos then (done tt, db) else rest

-- chanfixdb_channel_cleanup
unfoldable pub channel_cleanup : Call ChanfixDb (Unit {0})
unfolding cleanup_loop
channel_cleanup db = cleanup_loop (suc db.info.num_channels) db.info.channels db
