-- ===== src/Timers/Check.antt =====
-- What sitimedcbs_check calls and returns.
use efnet_services.Common.{
  ℕ, zero, suc, ◌≡◌, refl, ap, ◌∙◌, ◌≤◌, ◌<◌, ◌+◌, ◌*◌, Bool, true, false, List, [], ◌∷◌, ◌++◌, map,
  leb, length, if◌then◌else◌, All, Option, some, Bool-cases, inl, inr, arith,
}
use mathlib.Core.Option
use efnet_services.Timers.{Timer, Timers, due}
use efnet_services.Timers.Walk.{
  Asked, Walk, Checked, min_due, call, callback_add, check_loop, sitimedcbs_check,
}
use efnet_services.Timers.Kept.{only, is_due, call_of, rounds, rounds-le, Kept, callback_add-Kept}

module _ (now : ℕ) (asks : ℕ → ℕ → ℕ → Option Asked) where
  -- `next` is not after the time at which a timer is due that stays after the check.
  abbrev pub Awaits : ℕ → Timer → Type 0
  Awaits next t =
      (leb (due t) now ≡ false → next ≤ due t)
      × (leb (due t) now ≡ true → t.repeat ≡ true → next ≤ now + t.sleep_secs)

  record Checks (nc : ℕ) (ts : List Timer) (c : Checked) : Type 0 where
    calls : c.called ≡ map call_of (only (is_due now) ts)
    early : c.next_check ≤ nc
    waits : All (Awaits c.next_check) ts
    after_now : now < nc → All (λ t. 0 < t.sleep_secs) ts → now < c.next_check

  abbrev Runs : ℕ → List Timer → Option Checked → Type 0
  Runs nc ts r = (c : Checked) × (r ≡ some c) × Checks nc ts c

  min_due-le : (t : Timer) (nc : ℕ) → (min_due t nc ≤ nc) × (min_due t nc ≤ due t)
  min_due-le t nc = ground arith

  min_due-after : (t : Timer) (nc : ℕ) → now < due t → now < nc → now < min_due t nc
  min_due-after t nc h k = ground arith

  if-then :
      {b : Bool} {x z : Option Checked} (y : Option Checked)
      → b ≡ true
      → x ≡ z
      → (if b then x else y) ≡ z
  if-then y e f = rw e f

  if-else :
      {b : Bool} {y z : Option Checked} (x : Option Checked)
      → b ≡ false
      → y ≡ z
      → (if b then x else y) ≡ z
  if-else x e f = rw e f

  check_loop-Runs :
      (fuel n nc : ℕ) (before ts : List Timer) (i : ℕ)
      → rounds now ts ≤ fuel
      → Runs nc ts (check_loop now asks fuel n nc before ts i)
  unfolding check_loop
  check_loop-Runs fuel n nc before [] i h = (
    record { list = before; last_id = i; called = []; next_check = nc },
    refl,
    record { calls = refl; early = omega arith; waits = tt; after_now = λ a b. a },
  )
  check_loop-Runs zero n nc before (t ∷ ts) i h = absurd (some_round (is_due now t) h)
    where
      some_round : (b : Bool) → ¬ ((if b then 2 else 1) + rounds now ts ≤ 0)
      some_round true h = omega (arith, h)
      some_round false h = omega (arith, h)
  check_loop-Runs (suc fuel) n nc before (t ∷ ts) i h = elim (Bool-cases (leb (due t) now)) [
    | inr m ↦
        let (c, e, k) = check_loop-Runs fuel n (min_due t nc) (before ++ t ∷ []) ts i (less m h) in
        (c, if-else _ m e, stays m k)
    | inl y ↦
        let w =
          callback_add now asks (asks n t.callback t.arg) t
            (record { before = before; between = []; rest = ts; last_id = i }) in
        let kept =
          callback_add-Kept now asks (asks n t.callback t.arg) t
            (record { before = before; between = []; rest = ts; last_id = i }) in
        let enough : rounds now w.rest ≤ fuel = omega (arith, kept.few, two y h) in
        elim (Bool-cases t.repeat) [
          | inl r ↦
              let again : Timer = record t { time = now } in
              let (c, e, k) =
                check_loop-Runs fuel (suc n) (min_due again nc) (w.before ++ again ∷ w.between)
                  w.rest w.last_id enough in
              (call t c, if-then _ y (if-then _ r (ap (Option.map (call t)) e)), renewed y r kept k)
          | inr r ↦
              let (c, e, k) =
                check_loop-Runs fuel (suc n) nc (w.before ++ w.between) w.rest w.last_id enough in
              (call t c, if-then _ y (if-else _ r (ap (Option.map (call t)) e)), gone y r kept k)
        ]
  ]
    where
      less : leb (due t) now ≡ false → rounds now (t ∷ ts) ≤ suc fuel → rounds now ts ≤ fuel
      less m h = omega (arith, rw m at h)

      two : leb (due t) now ≡ true → rounds now (t ∷ ts) ≤ suc fuel → suc (rounds now ts) ≤ fuel
      two y h = omega (arith, rw y at h)

      late : (u : Timer) → leb (due u) now ≡ false → now < due u
      late u n = ground arith

      stays :
          {c : Checked}
          → leb (due t) now ≡ false
          → Checks (min_due t nc) ts c
          → Checks nc (t ∷ ts) c
      stays m k = record {
        calls = rw m k.calls;
        early = omega (arith, k.early, min_due-le t nc);
        waits = ((λ i. omega (arith, k.early, min_due-le t nc), λ y. cc), k.waits);
        after_now = λ a b. k.after_now (min_due-after t nc (late t m) a) b.1;
      }

      renewed :
          {c : Checked} {w : Walk}
          → leb (due t) now ≡ true
          → t.repeat ≡ true
          → Kept now asks ts w
          → Checks (min_due (record t { time = now }) nc) w.rest c
          → Checks nc (t ∷ ts) (call t c)
      renewed {c} {w} y r kept k = record {
        calls = rw y (ap (λ l. call_of t ∷ l) (k.calls ∙ ap (map call_of) kept.same));
        early = omega (arith, k.early, min_due-le (record t { time = now }) nc);
        waits = (
          (λ m. cc, λ i j. omega (arith, k.early, min_due-le (record t { time = now }) nc)),
          kept.stay (Awaits c.next_check) k.waits,
        );
        after_now = λ a b.
            k.after_now (min_due-after (record t { time = now }) nc (omega (arith, b.0)) a)
              (kept.timed b.1);
      }

      gone :
          {c : Checked} {w : Walk}
          → leb (due t) now ≡ true
          → t.repeat ≡ false
          → Kept now asks ts w
          → Checks nc w.rest c
          → Checks nc (t ∷ ts) (call t c)
      gone {c} {w} y r kept k = record {
        calls = rw y (ap (λ l. call_of t ∷ l) (k.calls ∙ ap (map call_of) kept.same));
        early = k.early;
        waits = ((λ m. cc, λ i j. cc), kept.stay (Awaits c.next_check) k.waits);
        after_now = λ a b. k.after_now a (kept.timed b.1);
      }

  -- The check ends. The callbacks that it calls are those of the timers that are due at its start, each
  -- once and in the order of the list, whether or not the list is in order, and none of those that the
  -- callbacks add.
  pub sitimedcbs_check-called :
      (ts : Timers)
      → (c : Checked) × (sitimedcbs_check now asks ts ≡ some c)
        × (c.called ≡ map call_of (only (is_due now) ts.list))
  unfolding sitimedcbs_check
  sitimedcbs_check-called ts =
      let (c, e, k) =
        check_loop-Runs (2 * length ts.list) 0 (now + 60) [] ts.list ts.last_id
          (rounds-le now ts.list) in
      (c, e, k.calls)

  -- When every timer has a number of seconds that is not 0, the check ends and the time of the next check
  -- is after now and no more than 60 seconds away. It is not after the time at which a timer that was
  -- there at the start and was not due is due, nor after that at which one that comes back is due again.
  pub sitimedcbs_check-Awaits :
      (ts : Timers)
      → All (λ t. 0 < t.sleep_secs) ts.list
      → (c : Checked) × (sitimedcbs_check now asks ts ≡ some c)
        × (now < c.next_check)
        × (c.next_check ≤ now + 60)
        × All (Awaits c.next_check) ts.list
  unfolding sitimedcbs_check
  sitimedcbs_check-Awaits ts h =
      let (c, e, k) =
        check_loop-Runs (2 * length ts.list) 0 (now + 60) [] ts.list ts.last_id
          (rounds-le now ts.list) in
      (c, e, k.after_now (omega arith) h, k.early, k.waits)
