-- ===== src/Timers/Walk.antt =====
-- sitimedcbs_check of daemon/timedcbs.c, with what the callbacks do to the list while it goes through it.
-- A callback may call sitimedcb_add once, as _chanfix_check of modules/chanfix/mod_chanfix.c does, which
-- is the only one that is ever set; none calls sitimedcb_del.
use efnet_services.Common.{
  ℕ, zero, suc, ◌+◌, ◌*◌, Bool, true, false, ◌||◌, List, [], ◌∷◌, ◌++◌, ◌==◌, ltb, leb, length,
  if◌then◌else◌, Option, none, some,
}
use mathlib.Core.Option
use efnet_services.Timers.{Timer, Timers, due, next_id, insert}

-- The arguments of a callback's call of sitimedcb_add, with whether simempool_calloc returns a record in
-- it and how long after the start of the check it is.
pub record Asked : Type 0 where
  pub memory : Bool
  pub delay : ℕ
  pub seconds : ℕ
  pub repeat : Bool
  pub callback : ℕ
  pub arg : ℕ

-- The list in a round of the loop, without tptr: what is before tptr, what is between it and nexttptr,
-- and the timers from nexttptr on.
pub record Walk : Type 0 where
  pub before : List Timer
  pub between : List Timer
  pub rest : List Timer
  pub last_id : ℕ

-- The search of sitimedcb_add ends within these timers.
unfoldable pub meets : Timer → List Timer → Bool
meets t [] = false
meets t (x ∷ xs) = leb (due t) (due x) || meets t xs

-- It ends at nexttptr, which may be NULL.
unfoldable pub meets_next : Timer → List Timer → Bool
meets_next t [] = true
meets_next t (x ∷ xs) = leb (due t) (due x)

-- sitimedcb_add puts the timer on the list while the loop is at `tptr`. What it puts right before
-- nexttptr the loop does not come to.
unfoldable pub place : Timer → Timer → Walk → Walk
place t tptr w =
    if meets t w.before || leb (due t) (due tptr)
    then record w { before = insert t w.before }
    else if meets t w.between || meets_next t w.rest
    then record w { between = insert t w.between }
    else record w { rest = insert t w.rest }

-- What the check leaves: the timers, the last id, the callbacks that it called with their arguments in
-- order, and `nc`.
pub record Checked : Type 0 where
  pub list : List Timer
  pub last_id : ℕ
  pub called : List (ℕ × ℕ)
  pub next_check : ℕ

abbrev pub min_due : Timer → ℕ → ℕ
min_due t nc = if ltb (due t) nc then due t else nc

abbrev pub call : Timer → Checked → Checked
call t c = record c { called = (t.callback, t.arg) ∷ c.called }

-- `asks n callback arg` is what the n-th call of a callback in the check asks for.
module _ (now : ℕ) (asks : ℕ → ℕ → ℕ → Option Asked) where
  abbrev pub asked_timer : Asked → ℕ → Timer
  asked_timer a last_id = record {
    id = next_id last_id;
    repeat = a.repeat;
    time = now + a.delay;
    sleep_secs = a.seconds;
    callback = a.callback;
    arg = a.arg;
  }

  -- The call of sitimedcb_add in a callback
  unfoldable pub callback_add : Option Asked → Timer → Walk → Walk
  callback_add none tptr w = w
  callback_add (some a) tptr w =
      if a.seconds == 0
      then w
      else if a.memory
      then place (asked_timer a w.last_id) tptr (record w { last_id = next_id w.last_id })
      else w

  -- The loop of sitimedcbs_check: `n` callbacks were called, `before` was gone through and `tptr` is the
  -- first of `rest`.
  unfoldable pub check_loop : ℕ → ℕ → ℕ → List Timer → List Timer → ℕ → Option Checked
  check_loop fuel n nc before [] last_id =
      some (record { list = before; last_id = last_id; called = []; next_check = nc })
  check_loop zero n nc before (t ∷ ts) last_id = none
  check_loop (suc fuel) n nc before (t ∷ ts) last_id =
      let w =
        callback_add (asks n t.callback t.arg) t
          (record { before = before; between = []; rest = ts; last_id = last_id }) in
      let again = record t { time = now } in
      let stays = check_loop fuel n (min_due t nc) (before ++ t ∷ []) ts last_id in
      let gone = check_loop fuel (suc n) nc (w.before ++ w.between) w.rest w.last_id in
      let renewed =
        check_loop fuel (suc n) (min_due again nc) (w.before ++ again ∷ w.between) w.rest
          w.last_id in
      if leb (due t) now
      then if t.repeat then Option.map (call t) renewed else Option.map (call t) gone
      else stays

  -- sitimedcbs_check at the time `now`; a timer may be added for each that is due, hence the fuel.
  unfoldable pub sitimedcbs_check : Timers → Option Checked
  sitimedcbs_check ts = check_loop (2 * length ts.list) 0 (now + 60) [] ts.list ts.last_id
