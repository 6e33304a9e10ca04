-- ===== src/Chanfix/Needed.antt =====
-- The part of _chanfix_channel_reop that finds how many users a pass looks at and the score that they
-- have at least. `now` is not before `cfc_fixed_time`.
use efnet_services.Common.{ℕ, zero, suc, ◌-◌, ◌*◌, ◌/◌, ◌%◌, ◌==◌, leb, ltb, if◌then◌else◌}
use efnet_services.Run.{npos, u32, add32, sub32}
use efnet_services.ChanfixDb.Store.{ChanfixDb, Chan}

-- The part of struct _si_chanfix_conf that this is about
pub record Conf : Type 0 where
  pub checkfreq : ℕ
  pub nicks_to_op : ℕ
  pub reop_wait_time_min : ℕ
  pub reop_wait_time_max : ℕ

-- The share of the users that one check has of a waiting time
abbrev pub share : Conf → Chan → ℕ → ℕ
share conf chan wait = chan.users_num * conf.checkfreq % u32 / wait

-- `users_per_pass`
unfoldable pub users_per_pass : Conf → ℕ → Chan → ℕ
users_per_pass conf now chan =
    let early = share conf chan conf.reop_wait_time_min in
    let users =
      if leb (now - chan.fixed_time) conf.reop_wait_time_min
      then if ltb conf.nicks_to_op early then conf.nicks_to_op else early
      else share conf chan conf.reop_wait_time_max in
    if users == 0 then 1 else users

-- `users_num`, with the pass that is counted for it
unfoldable pub pass_users : Conf → ℕ → Chan → ℕ × Chan
unfolding users_per_pass
pass_users conf now chan =
    let passes = add32 chan.fixed_passes 1 in
    (users_per_pass conf now chan * passes % u32, record chan { fixed_passes = passes })

-- `while (num--)` along the list: the record that it ends at.
unfoldable pub walk_users : (ℕ → ℕ) → ℕ → ℕ → ℕ → ℕ
walk_users follow zero pos curec = curec
walk_users follow (suc num) pos curec =
    let rest = walk_users follow num (follow pos) pos in if pos == npos then curec else rest

-- `score_needed`; the record before the loop, which the source leaves open, is `npos`.
unfoldable pub score_needed : ChanfixDb → ℕ → ℕ → ℕ
unfolding walk_users
score_needed db chan users_num =
    let c = db.chan chan in
    let num = sub32 (add32 1 c.users_num) users_num in
    if leb c.users_num users_num
    then 0
    else if ltb num users_num
    then (db.user (walk_users db.user_s.next num c.users_sorted_first npos)).tot_score
    else (db.user (walk_users db.user_s.prev users_num c.users_sorted_last npos)).tot_score
