-- ===== src/ChanfixDb/User.antt =====
-- The users of a channel: chanfixdb_chanuser_find, _create, _remove, _sort and the two rolls of
-- modules/chanfixdb/chanfixdb.c. A chain is searched with fuel for one record more than the channel
-- has users.
pub mod Sort
pub mod Scores
use efnet_services.Common.{
  ℕ, zero, suc, ◌+◌, ◌-◌, ◌%◌, Bool, Option, none, some, ◌&&◌, ◌==◌, if◌then◌else◌, update,
  replicate, length, not, take, get_or, List, [], ◌∷◌, map,
}
use efnet_services.Links.{add_to_list, del_from_list, scan}
use efnet_services.ChanfixDb.Sorted.{put_first, take_out, sort_list}
use efnet_services.Run.{
  Result, done, fail, enoent, eexist, stuck, npos, add32, sub32, Call, continue, ◌>>=◌, ◌>>◌, Text,
}
use efnet_services.ChanfixDb.Store.{
  ChanfixDb, Chan, ChanMode, ChanUser, Platform, write_chan, write_user, all_users, user_bucket,
  sorted_users, check,
}
use efnet_services.ChanfixDb.Hash.{hash_compute_client}
use efnet_services.ChanfixDb.Space.{del_space, get_space}

-- SI_CHANFIX_CHANUSER_HASHSIZE
abbrev pub user_buckets : ℕ
user_buckets = 15

-- The part of chanfixdb_chanuser_create that sets the fields and links the record.
unfoldable pub fill_user : ℕ → Text → ℕ → ℕ → ℕ → ChanfixDb → ChanfixDb
fill_user chan userhost pos size hashv db =
    let hv = hashv % user_buckets in
    let c = db.chan chan in
    let s = put_first npos pos (sorted_users chan db) in
    let h = add_to_list npos pos (user_bucket chan hv db) in
    let a = add_to_list npos pos (all_users db) in
    record db {
      user = update db.user pos (record {
        size = size;
        hashv = hashv;
        last_seen = 0;
        chan_offset = chan;
        tot_score = 0;
        scores = replicate 14 0;
        userhost = userhost;
      });
      user_s = s.links;
      user_h = h.links;
      user_a = a.links;
      chan = update db.chan chan (record c {
        users_sorted_first = s.first;
        users_sorted_last = s.last;
        users_offset = update c.users_offset hv h.first;
        users_num = add32 c.users_num 1;
      });
      info = record (db.info) {
        chanusers = a.first;
        num_chanusers = add32 db.info.num_chanusers 1;
      };
    }

-- The writes of chanfixdb_chanuser_remove.
unfoldable pub unlink_user : ℕ → ChanfixDb → ChanfixDb
unlink_user pos db =
    let u = db.user pos in
    let c = db.chan u.chan_offset in
    let hv = u.hashv % user_buckets in
    let a = del_from_list npos pos (all_users db) in
    let h = del_from_list npos pos (user_bucket u.chan_offset hv db) in
    let s = take_out npos pos (sorted_users u.chan_offset db) in
    del_space pos u.size (record db {
      user_a = a.links;
      user_h = h.links;
      user_s = s.links;
      chan = update db.chan u.chan_offset (record c {
        users_sorted_first = s.first;
        users_sorted_last = s.last;
        users_offset = update c.users_offset hv h.first;
        users_num = sub32 c.users_num 1;
      });
      info = record (db.info) {
        chanusers = a.first;
        num_chanusers = sub32 db.info.num_chanusers 1;
      };
    })

-- chanfixdb_chanuser_sort, on the list of the channel that the user names.
unfoldable pub sort_user : ℕ → Call ChanfixDb (Unit {0})
sort_user pos db =
    let chan = (db.user pos).chan_offset in
    elim (sort_list npos (suc (db.chan chan).users_num) (λ p. (db.user p).tot_score) pos
      (sorted_users chan db)) [
        | none ↦ (fail stuck, db)
        | some e ↦ (
          done tt,
          record db {
            user_s = e.links;
            chan = update db.chan chan (record (db.chan chan) {
              users_sorted_first = e.first;
              users_sorted_last = e.last;
            });
          },
        )
      ]

-- The scores move back by a day: the oldest of the 14 leaves, and today's is 0.
abbrev pub roll_scores : List ℕ → List ℕ
roll_scores scores = 0 ∷ take 13 scores

abbrev pub roll_user : ChanUser → ChanUser
roll_user u = record u {
  tot_score = sub32 u.tot_score (get_or u.scores 13 0);
  scores = roll_scores u.scores;
}

-- The roll of one mode. The index of the score that is subtracted is the number of modes less one.
abbrev pub roll_mode : ChanMode → ChanMode
roll_mode m = record m {
  tot_score = sub32 m.tot_score (get_or m.scores 4 0);
  scores = roll_scores m.scores;
}

module _ (calls : Platform) where
  -- The test of the loop of _chanfixdb_channel_chanuser_find.
  abbrev pub is_user : ChanfixDb → Text → ℕ → ℕ → Bool
  is_user db userhost hashv pos =
      (db.user pos).hashv == hashv && calls.same_text userhost (db.user pos).userhost

  unfoldable pub user_loop : ℕ → ChanfixDb → Text → ℕ → ℕ → Option ℕ
  unfolding scan
  user_loop fuel db userhost hashv pos = scan npos fuel (is_user db userhost hashv) db.user_h pos

  -- _chanfixdb_channel_chanuser_find
  unfoldable pub find_user_in : ChanfixDb → ℕ → ℕ → Text → ℕ → Result ℕ
  unfolding user_loop
  find_user_in db chan first userhost hashv =
      elim (user_loop (suc (db.chan chan).users_num) db userhost hashv first) [
        | none ↦ fail stuck
        | some pos ↦ if pos == npos then fail enoent else done pos
      ]

  -- chanfixdb_chanuser_find
  unfoldable pub chanuser_find : ℕ → Text → Call ChanfixDb ℕ
  chanuser_find chan userhost = check calls >> λ db.
      let hashv = hash_compute_client calls.to_lower userhost in
      (find_user_in db chan ((db.chan chan).users_offset (hashv % user_buckets)) userhost hashv, db)

  -- The rest of it, from the writes of `cfcu_size`, `cfcu_hashv` and `cfcu_last_seen` on.
  unfoldable pub create_user_at : ℕ → Text → ℕ × ℕ → Call ChanfixDb ℕ
  create_user_at chan userhost (pos, size) db =
      let hashv = hash_compute_client calls.to_lower userhost in
      let db₁ =
        write_user pos (record (db.user pos) { size = size; hashv = hashv; last_seen = 0 }) db in
      elim (find_user_in db₁ chan ((db₁.chan chan).users_offset (hashv % user_buckets)) userhost
        hashv) [
          | done _ ↦ (fail eexist, del_space pos size db₁)
          | fail stuck ↦ (fail stuck, db₁)
          | fail _ ↦ (done pos, fill_user chan userhost pos size hashv db₁)
        ]

  -- chanfixdb_chanuser_create
  unfoldable pub chanuser_create : ℕ → Text → Call ChanfixDb ℕ
  chanuser_create chan userhost =
      check calls
      >> (get_space calls (add32 calls.chanuser_bytes (length userhost))
          >>= create_user_at chan userhost)

  -- chanfixdb_chanuser_remove
  unfoldable pub chanuser_remove : ℕ → Call ChanfixDb (Unit {0})
  chanuser_remove pos = check calls >> λ db. (done tt, unlink_user pos db)

  unfoldable pub chanuser_sort : ℕ → Call ChanfixDb (Unit {0})
  chanuser_sort pos = check calls >> sort_user pos

  -- The body of the loop of chanfixdb_chanuser_roll. The results of the calls are not looked at.
  unfoldable pub roll_one : ℕ → ChanfixDb → ChanfixDb
  roll_one pos db =
      let db₁ = write_user pos (roll_user (db.user pos)) db in
      if not ((db₁.user pos).tot_score == 0)
      then (chanuser_sort pos db₁).1
      else (chanuser_remove pos db₁).1

  unfoldable pub roll_bucket : ℕ → ℕ → Call ChanfixDb (Unit {0})
  unfolding roll_one
  roll_bucket zero pos db = (fail stuck, db)
  roll_bucket (suc fuel) pos db =
      let rest = roll_bucket fuel (db.user_h.next pos) (roll_one pos db) in
      if pos == npos then (done tt, db) else rest

  -- The buckets from number 15 - `left` on.
  unfoldable pub roll_buckets : ℕ → ℕ → ℕ → Call ChanfixDb (Unit {0})
  unfolding roll_bucket
  roll_buckets fuel chan zero db = (done tt, db)
  roll_buckets fuel chan (suc left) db =
      continue (roll_bucket fuel ((db.chan chan).users_offset (user_buckets - suc left)) db)
        (λ _. roll_buckets fuel chan left)

  -- chanfixdb_chanuser_roll
  unfoldable pub chanuser_roll : ℕ → Call ChanfixDb (Unit {0})
  unfolding roll_buckets
  chanuser_roll chan db = roll_buckets (suc (db.chan chan).users_num) chan user_buckets db

  -- The body of the loop of chanfixdb_roll.
  unfoldable pub roll_chan : ℕ → Call ChanfixDb (Unit {0})
  unfolding chanuser_roll
  roll_chan pos = chanuser_roll pos >> λ db.
      let c = db.chan pos in
      (done tt, write_chan pos (record c { modes = map roll_mode c.modes }) db)

  unfoldable pub roll_loop : ℕ → ℕ → Call ChanfixDb (Unit {0})
  unfolding roll_chan
  roll_loop zero pos db = (fail stuck, db)
  roll_loop (suc fuel) pos db =
      let rest : Result (Unit {0}) × ChanfixDb =
        continue (roll_chan pos db) (λ _ d. roll_loop fuel (d.chan_a.next pos) d) in
      if pos == npos then (done tt, db) else rest

  -- chanfixdb_roll
  unfoldable pub roll : Call ChanfixDb (Unit {0})
  unfolding roll_loop
  roll db = roll_loop (suc db.info.num_channels) db.info.channels db
