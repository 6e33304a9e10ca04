-- ===== src/Tests/Timers.antt =====
-- Three timers, of which two are due and one of these comes back, and a callback that adds a timer.
use efnet_services.Common.{
  ℕ, if◌then◌else◌, ◌==◌, ◌<◌, ◌≤◌, All, Option, none, ◌≡◌, refl, ◌≢◌, ◌+◌, true, false, some, [],
  ◌∷◌, map, arith,
}
use efnet_services.Timers.{Timer, Timers, ok, next_id, insert, sitimedcb_add}
use efnet_services.Timers.Walk.{
  Asked, Walk, Checked, sitimedcbs_check, check_loop, callback_add, place, meets, meets_next,
}
use efnet_services.Timers.Order.{Inserted, added, sitimedcb_add-Inserted}
use efnet_services.Timers.Kept.{only, is_due, call_of}
use efnet_services.Timers.Check.{Awaits, sitimedcbs_check-called, sitimedcbs_check-Awaits}

abbrev once : Timer
once = record { id = 1; repeat = false; time = 100; sleep_secs = 5; callback = 11; arg = 0 }

abbrev again : Timer
again = record { id = 2; repeat = true; time = 100; sleep_secs = 10; callback = 12; arg = 0 }

abbrev later : Timer
later = record { id = 3; repeat = false; time = 100; sleep_secs = 30; callback = 13; arg = 0 }

abbrev three : Timers
three = record { list = once ∷ again ∷ later ∷ []; last_id = 3 }

sitimedcb_add-Inserted_example :
    (r : Timers) × (sitimedcb_add 101 true 20 false 14 0 three ≡ (ok, some (next_id 3), r))
    × (next_id 3 ≢ 0)
    × Inserted (added 101 20 false 14 0 three) three.list r.list
sitimedcb_add-Inserted_example =
    sitimedcb_add-Inserted 101 20 false 14 0 three (omega arith)
      ((omega arith, (omega arith, tt)), ((omega arith, tt), (tt, tt)))

abbrev asked : Asked
asked = record { memory = true; delay = 0; seconds = 15; repeat = false; callback = 11; arg = 0 }

-- The first callback asks to be called again in 15 seconds, the other one asks for nothing.
abbrev asking : ℕ → ℕ → ℕ → Option Asked
asking n callback arg = if callback == 11 then some asked else none

abbrev walk : Walk
walk = record { before = []; between = []; rest = again ∷ later ∷ []; last_id = 3 }

sitimedcbs_check-called_example :
    (c : Checked) × (sitimedcbs_check 110 asking three ≡ some c)
    × (c.called ≡ map call_of (only (is_due 110) three.list))
sitimedcbs_check-called_example = sitimedcbs_check-called 110 asking three

sitimedcbs_check-Awaits_example :
    (c : Checked) × (sitimedcbs_check 110 asking three ≡ some c)
    × (110 < c.next_check)
    × (c.next_check ≤ 110 + 60)
    × All (Awaits 110 asking c.next_check) three.list
sitimedcbs_check-Awaits_example =
    sitimedcbs_check-Awaits 110 asking three (omega arith, (omega arith, (omega arith, tt)))

abbrev added_again : Timer
added_again = record { id = 4; repeat = false; time = 110; sleep_secs = 15; callback = 11; arg = 0 }

abbrev left_timers : Checked
left_timers = record {
  list = record again { time = 110 } ∷ added_again ∷ later ∷ [];
  last_id = 4;
  called = (11, 0) ∷ (12, 0) ∷ [];
  next_check = 120;
}

two_are_called : sitimedcbs_check 110 asking three ≡ some left_timers
unfolding sitimedcbs_check check_loop callback_add place meets meets_next insert
two_are_called = refl

-- A timer that is added right before nexttptr, which is the end of the list, is not counted for the next
-- check, which is then later than the timer is due.
late_check :
    sitimedcbs_check 110 asking (record { list = once ∷ []; last_id = 3 })
    ≡ some
        (record { list = added_again ∷ []; last_id = 4; called = (11, 0) ∷ []; next_check = 170 })
unfolding sitimedcbs_check check_loop callback_add place meets meets_next insert
late_check = refl
