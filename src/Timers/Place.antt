-- ===== src/Timers/Place.antt =====
-- A timer that a callback adds goes on the list as sitimedcb_add puts it there.
use efnet_services.Common.{ℕ, ◌≡◌, ◌+◌, List, ◌∷◌, ◌++◌, Option, none, some}
use efnet_services.Timers.{Timer, sitimedcb_add}
use efnet_services.Timers.Walk.{Asked, Walk}

-- The list that a round of the loop is in.
abbrev pub whole : Timer → Walk → List Timer
whole tptr w = w.before ++ tptr ∷ (w.between ++ w.rest)

module _ (now : ℕ) (asks : ℕ → ℕ → ℕ → Option Asked) where
  -- The walk has the list and the last id that sitimedcb_add leaves.
  abbrev pub AsksFor : Option Asked → Timer → Walk → Walk → Type 0
  AsksFor none tptr w r = r ≡ w
  AsksFor (some a) tptr w r =
      let after =
        (sitimedcb_add (now + a.delay) a.memory a.seconds a.repeat a.callback a.arg
          (record { list = whole tptr w; last_id = w.last_id })).2 in
      (whole tptr r ≡ after.list) × (r.last_id ≡ after.last_id)
