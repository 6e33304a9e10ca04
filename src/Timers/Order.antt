-- ===== src/Timers/Order.antt =====
-- The order of the timers, through sitimedcb_add and sitimedcb_del.
use efnet_services.Common.{
  ℕ, ◌≡◌, refl, ap, ◌≢◌, ◌⊎◌, inl, inr, ◌≤◌, ◌<◌, ◌+◌, ◌%◌, Bool, true, List, [], ◌∷◌, ◌++◌, ◌==◌,
  leb, Option, none, some, All, All-map, Bool-cases, leb→le, leb-false, ==→eq, ==_false, ne→==,
  arith,
}
use efnet_services.Timers.{
  Timer, Timers, ok, enoent, due, next_id, insert, sitimedcb_add, delete, sitimedcb_del,
}

-- No timer is due before the one ahead of it.
abbrev pub InOrder : List Timer → Type 0
InOrder [] = Unit
InOrder (t ∷ ts) = All (λ u. due t ≤ due u) ts × InOrder ts

-- A list that is `ts` with `t` somewhere in it, in order.
abbrev pub Inserted : Timer → List Timer → List Timer → Type 0
Inserted t ts r = (us vs : List Timer) × (us ++ vs ≡ ts) × (us ++ t ∷ vs ≡ r) × InOrder r

pub All-insert :
    (P : Timer → Type 0) (t : Timer) (ts : List Timer) → P t → All P ts → All P (insert t ts)
unfolding insert
All-insert P t [] p h = (p, tt)
All-insert P t (x ∷ xs) p (q, h) = elim (Bool-cases (leb (due t) (due x))) [
  | inl y ↦ rw y (p, (q, h))
  | inr n ↦ rw n (q, All-insert P t xs p h)
]

insert-Inserted : (t : Timer) (ts : List Timer) → InOrder ts → Inserted t ts (insert t ts)
unfolding insert
insert-Inserted t [] h = ([], [], refl, refl, (tt, tt))
insert-Inserted t (x ∷ xs) (f, h) = elim (Bool-cases (leb (due t) (due x))) [
  | inl y ↦
      let le = leb→le (due t) (due x) y in
      rw y (
        [],
        x ∷ xs,
        refl,
        refl,
        ((le, All-map (λ u. due x ≤ due u) (λ u. due t ≤ due u) xs (λ u k. omega arith) f), (f, h)),
      )
  | inr n ↦
      let (us, vs, i, j, o) = insert-Inserted t xs h in
      rw n (
        x ∷ us,
        vs,
        ap (λ k. x ∷ k) i,
        ap (λ k. x ∷ k) j,
        (All-insert (λ u. due x ≤ due u) t xs (leb-false (due t) (due x) n) f, o),
      )
]

next_id-ne : (n : ℕ) → next_id n ≢ 0
next_id-ne n = elim (Bool-cases ((n + 1) % 0x1_0000_0000 == 0)) [
  | inl y ↦ let z = ==→eq ((n + 1) % 0x1_0000_0000) 0 y in rw (y, z) (λ e. omega (arith, e))
  | inr k ↦ rw k (==_false ((n + 1) % 0x1_0000_0000) 0 k)
]

-- What was added.
abbrev pub added : ℕ → ℕ → Bool → ℕ → ℕ → Timers → Timer
added now seconds repeat callback arg ts = record {
  id = next_id ts.last_id;
  repeat = repeat;
  time = now;
  sleep_secs = seconds;
  callback = callback;
  arg = arg;
}

-- With memory and a number of seconds that is not 0, a timer added to a list that is in order gets an
-- id that is not 0, and leaves the list in order with the other timers as they were.
pub sitimedcb_add-Inserted :
    (now seconds : ℕ) (repeat : Bool) (callback arg : ℕ) (ts : Timers)
    → 0 < seconds
    → InOrder ts.list
    → (r : Timers) × (sitimedcb_add now true seconds repeat callback arg ts
        ≡ (ok, some (next_id ts.last_id), r))
      × (next_id ts.last_id ≢ 0)
      × Inserted (added now seconds repeat callback arg ts) ts.list r.list
unfolding sitimedcb_add
sitimedcb_add-Inserted now seconds repeat callback arg ts positive h =
    let t = added now seconds repeat callback arg ts in
    (
      record { list = insert t ts.list; last_id = next_id ts.last_id },
      rw (ne→== seconds 0 (λ e. omega arith)) refl,
      next_id-ne ts.last_id,
      insert-Inserted t ts.list h,
    )

-- No timer has the id, or the list without the first one that has it.
abbrev pub Deleted : ℕ → List Timer → Option (List Timer) → Type 0
Deleted tid ts r =
    ((r ≡ none) × All (λ t. t.id ≢ tid) ts)
    ⊎ ((us vs : List Timer) × (t : Timer) × (us ++ t ∷ vs ≡ ts)
        × (r ≡ some (us ++ vs))
        × (t.id ≡ tid)
        × All (λ u. u.id ≢ tid) us)

delete-Deleted : (tid : ℕ) (ts : List Timer) → Deleted tid ts (delete tid ts)
unfolding delete
delete-Deleted tid [] = inl (refl, tt)
delete-Deleted tid (t ∷ ts) = elim (Bool-cases (t.id == tid)) [
  | inl y ↦ rw y (inr ([], ts, t, refl, refl, ==→eq t.id tid y, tt))
  | inr n ↦ elim (delete-Deleted tid ts) [
    | inl (e, f) ↦ rw (n, e) (inl (refl, (==_false t.id tid n, f)))
    | inr (us, vs, u, i, e, same, f) ↦
        rw (n, e) (inr (t ∷ us, vs, u, ap (λ k. t ∷ k) i, refl, same, (==_false t.id tid n, f)))
  ]
]

-- sitimedcb_del returns ENOENT and changes nothing when no timer has the id, and else it returns 0
-- and takes the first timer of that id off the list.
pub sitimedcb_del-Deleted :
    (tid : ℕ) (ts : Timers)
    → ((sitimedcb_del tid ts ≡ (enoent, ts)) × All (λ t. t.id ≢ tid) ts.list)
      ⊎ ((us vs : List Timer) × (t : Timer) × (us ++ t ∷ vs ≡ ts.list)
          × (sitimedcb_del tid ts ≡ (ok, record ts { list = us ++ vs }))
          × (t.id ≡ tid)
          × All (λ u. u.id ≢ tid) us)
unfolding sitimedcb_del
sitimedcb_del-Deleted tid ts = elim (delete-Deleted tid ts.list) [
  | inl (e, f) ↦ rw e (inl (refl, f))
  | inr (us, vs, t, i, e, same, f) ↦ rw e (inr (us, vs, t, i, refl, same, f))
]
