-- ===== src/Timers/Kept.antt =====
-- What a callback's timer does to the timers that a check has still to go through: nothing that the
-- check could call.
use efnet_services.Common.{
  ℕ, ◌≡◌, refl, ◌≤◌, ◌<◌, ◌+◌, ◌*◌, Bool, false, ◌||◌, List, [], ◌∷◌, leb, length, ◌==◌, ==_false,
  if◌then◌else◌, All, Option, none, some, Bool-cases, inl, inr, ◌≢◌, arith,
}
use efnet_services.Timers.{Timer, due, insert, next_id}
use efnet_services.Timers.Order.{All-insert}
use efnet_services.Timers.Walk.{Asked, Walk, meets, meets_next, place, asked_timer, callback_add}

-- The timers that pass a test, in order.
abbrev pub only : (Timer → Bool) → List Timer → List Timer
only test [] = []
only test (t ∷ ts) = if test t then t ∷ only test ts else only test ts

abbrev pub is_due : ℕ → Timer → Bool
is_due now t = leb (due t) now

abbrev pub call_of : Timer → ℕ × ℕ
call_of t = (t.callback, t.arg)

-- The rounds that the timers may take.
abbrev pub rounds : ℕ → List Timer → ℕ
rounds now [] = 0
rounds now (t ∷ ts) = (if is_due now t then 2 else 1) + rounds now ts

pub rounds-le : (now : ℕ) (ts : List Timer) → rounds now ts ≤ 2 * length ts
rounds-le now [] = omega arith
rounds-le now (t ∷ ts) = elim (Bool-cases (leb (due t) now)) [
  | inl y ↦ rw y (omega (arith, rounds-le now ts))
  | inr n ↦ rw n (omega (arith, rounds-le now ts))
]

-- The timer that a callback asks for is not due in the check.
All-uninsert : (P : Timer → Type 0) (t : Timer) (ts : List Timer) → All P (insert t ts) → All P ts
unfolding insert
All-uninsert P t [] h = tt
All-uninsert P t (x ∷ xs) h = elim (Bool-cases (leb (due t) (due x))) [
  | inl y ↦ (rw y at h).1
  | inr n ↦ let (p, q) = (rw n at h) in (p, All-uninsert P t xs q)
]

rest-kept :
    (now : ℕ) (t : Timer) (ts : List Timer)
    → leb (due t) now ≡ false
    → (only (is_due now) (insert t ts) ≡ only (is_due now) ts)
      × (rounds now (insert t ts) ≡ 1 + rounds now ts)
unfolding insert
rest-kept now t [] h = rw h (refl, refl)
rest-kept now t (x ∷ xs) h = elim (Bool-cases (leb (due t) (due x))) [
  | inl y ↦ rw (y, h) (refl, refl)
  | inr n ↦ let (e, f) = rest-kept now t xs h in (rw (n, e) refl, rw n (omega (arith, f)))
]

module _ (now : ℕ) (asks : ℕ → ℕ → ℕ → Option Asked) where
  -- The timers from nexttptr on stay, and what comes between them is not due.
  pub record Kept (ts : List Timer) (w : Walk) : Type 1 where
    pub same : only (is_due now) w.rest ≡ only (is_due now) ts
    pub few : rounds now w.rest ≤ 1 + rounds now ts
    pub stay : (P : Timer → Type 0) → All P w.rest → All P ts
    pub timed : All (λ t. 0 < t.sleep_secs) ts → All (λ t. 0 < t.sleep_secs) w.rest

  all-Kept : (w : Walk) → Kept w.rest w
  all-Kept w = record { same = refl; few = omega arith; stay = λ P h. h; timed = λ h. h }

  place-Kept :
      (t tptr : Timer) (w : Walk)
      → leb (due t) now ≡ false
      → 0 < t.sleep_secs
      → Kept w.rest (place t tptr w)
  unfolding place
  place-Kept t tptr w h k = elim (Bool-cases (meets t w.before || leb (due t) (due tptr))) [
    | inl y ↦ rw y (all-Kept (record w { before = insert t w.before }))
    | inr n ↦ elim (Bool-cases (meets t w.between || meets_next t w.rest)) [
      | inl y ↦ rw (n, y) (all-Kept (record w { between = insert t w.between }))
      | inr m ↦
          let (e, f) = rest-kept now t w.rest h in
          rw (n, m)
            (record {
              same = e;
              few = omega (arith, f);
              stay = λ P. All-uninsert P t w.rest;
              timed = All-insert (λ u. 0 < u.sleep_secs) t w.rest k;
            })
    ]
  ]

  pub callback_add-Kept :
      (a : Option Asked) (tptr : Timer) (w : Walk) → Kept w.rest (callback_add now asks a tptr w)
  unfolding callback_add
  callback_add-Kept none tptr w = all-Kept w
  callback_add-Kept (some a) tptr w = elim (Bool-cases (a.seconds == 0)) [
    | inl y ↦ rw y (all-Kept w)
    | inr n ↦ elim (Bool-cases a.memory) [
      | inl y ↦
          let k = ==_false a.seconds 0 n in
          rw (n, y)
            (place-Kept (asked_timer now asks a w.last_id) tptr
              (record w { last_id = next_id w.last_id }) (not_due a k) (some_time a k))
      | inr m ↦ rw (n, m) (all-Kept w)
    ]
  ]
    where
      some_time : (a : Asked) → a.seconds ≢ 0 → 0 < a.seconds
      some_time a h = ground arith

      not_due : (a : Asked) → a.seconds ≢ 0 → leb (now + a.delay + a.seconds) now ≡ false
      not_due a h = ground arith
