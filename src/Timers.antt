-- ===== src/Timers.antt =====
-- The timed callbacks of daemon/timedcbs.c. The list from SITimers on is a list of records; a callback
-- and its argument are numbers that name them, and a time_t does not wrap. Timers.Walk is the check.
pub mod Order
pub mod Walk
pub mod Place
pub mod Kept
pub mod Check
use efnet_services.Common.{
  ℕ, zero, suc, ◌+◌, ◌%◌, Bool, true, false, List, [], ◌∷◌, ◌==◌, ltb, leb, if◌then◌else◌, Option,
  none, some,
}
use mathlib.Core.Option

-- struct _si_timedcb, without its links
pub record Timer : Type 0 where
  pub id : ℕ
  pub repeat : Bool
  pub time : ℕ
  pub sleep_secs : ℕ
  pub callback : ℕ
  pub arg : ℕ

-- SITimers and SITimer_id
pub record Timers : Type 0 where
  pub list : List Timer
  pub last_id : ℕ

pub data Code : Type 0 where
  ok einval enomem enoent : Code

abbrev pub due : Timer → ℕ
due t = t.time + t.sleep_secs

abbrev succ32 : ℕ → ℕ
succ32 n = (n + 1) % 0x1_0000_0000

-- "don't allow id of 0"
abbrev pub next_id : ℕ → ℕ
next_id last_id = if succ32 last_id == 0 then succ32 (succ32 last_id) else succ32 last_id

-- The search of sitimedcb_add and the links it sets: before the first timer that is not due earlier.
unfoldable pub insert : Timer → List Timer → List Timer
insert t [] = t ∷ []
insert t (x ∷ xs) = let rest = insert t xs in if leb (due t) (due x) then t ∷ x ∷ xs else x ∷ rest

-- sitimedcb_add at the time `now`, with the id that it stores; `memory` says whether simempool_calloc
-- returns a record. A callback is never NULL here.
unfoldable pub sitimedcb_add : ℕ → Bool → ℕ → Bool → ℕ → ℕ → Timers → Code × Option ℕ × Timers
sitimedcb_add now memory seconds repeat callback arg ts =
    let i = next_id ts.last_id in
    let t : Timer = record {
      id = i;
      repeat = repeat;
      time = now;
      sleep_secs = seconds;
      callback = callback;
      arg = arg;
    } in
    if seconds == 0
    then (einval, none, ts)
    else if memory
    then (ok, some i, record { list = insert t ts.list; last_id = i })
    else (enomem, none, ts)

-- The search of sitimedcb_del: the list without the first timer of that id, if there is one.
unfoldable pub delete : ℕ → List Timer → Option (List Timer)
delete tid [] = none
delete tid (t ∷ ts) =
    let rest = Option.map (λ us. t ∷ us) (delete tid ts) in if t.id == tid then some ts else rest

abbrev deleted : Timers → Option (List Timer) → Code × Timers
deleted ts none = (enoent, ts)
deleted ts (some us) = (ok, record ts { list = us })

-- sitimedcb_del
unfoldable pub sitimedcb_del : ℕ → Timers → Code × Timers
sitimedcb_del tid ts = deleted ts (delete tid ts.list)
