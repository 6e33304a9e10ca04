-- ===== src/Links/Segment.antt =====
-- What a linked list stands for: the positions in its order, each linked to its neighbours.
use efnet_services.Common.{
  ℕ, ◌≡◌, refl, sym, ap, ◌∙◌, ◌≢◌, List, [], ◌∷◌, ◌++◌, arith, ◌==◌, update_self, head_or, last_or,
  All, Avoids, Distinct, head_or-append, last_or-ne, Bool-cases, inl, inr, eq→==, ne→==,
}
use efnet_services.Links.{Links, set_prev, set_next, set_prev_if, set_next_if}

module _ (nil : ℕ) where
  -- The records `xs` in a row, after the position `b` and before the position `e`.
  abbrev pub Segment : Links → ℕ → List ℕ → ℕ → Type 0
  Segment l b [] e = Unit
  Segment l b (x ∷ xs) e = (x ≢ nil) × (l.prev x ≡ b) × (l.next x ≡ head_or e xs) × Segment l x xs e

  pub Segment-append :
      (l : Links) (b e : ℕ) (xs ys : List ℕ)
      → Segment l b xs (head_or e ys)
      → Segment l (last_or b xs) ys e
      → Segment l b (xs ++ ys) e
  Segment-append l b e [] ys hx hy = hy
  Segment-append l b e (x ∷ xs) ys (a, p, q, hx) hy =
      (a, p, q ∙ sym (head_or-append e xs ys), Segment-append l x e xs ys hx hy)

  pub Segment-left :
      (l : Links) (b e : ℕ) (xs ys : List ℕ)
      → Segment l b (xs ++ ys) e
      → Segment l b xs (head_or e ys)
  Segment-left l b e [] ys h = tt
  Segment-left l b e (x ∷ xs) ys (a, p, q, h) =
      (a, p, q ∙ head_or-append e xs ys, Segment-left l x e xs ys h)

  pub Segment-right :
      (l : Links) (b e : ℕ) (xs ys : List ℕ)
      → Segment l b (xs ++ ys) e
      → Segment l (last_or b xs) ys e
  Segment-right l b e [] ys h = h
  Segment-right l b e (x ∷ xs) ys h = Segment-right l x e xs ys h.3

  -- The links of the records in the list are all that counts.
  pub Segment-frame :
      (l m : Links) (b e : ℕ) (xs : List ℕ)
      → All (λ x. (m.prev x ≡ l.prev x) × (m.next x ≡ l.next x)) xs
      → Segment l b xs e
      → Segment m b xs e
  Segment-frame l m b e [] same h = tt
  Segment-frame l m b e (x ∷ xs) ((sp, sn), same) (a, p, q, h) =
      (a, sp ∙ p, sn ∙ q, Segment-frame l m x e xs same h)

  pub Segment-set_prev :
      (l : Links) (b e p v : ℕ) (xs : List ℕ)
      → Avoids p xs
      → Segment l b xs e
      → Segment (set_prev p v l) b xs e
  Segment-set_prev l b e p v [] f h = tt
  Segment-set_prev l b e p v (x ∷ xs) f (a, q, n, h) =
      (a, ground arith, n, Segment-set_prev l x e p v xs f.1 h)

  pub Segment-set_next :
      (l : Links) (b e p v : ℕ) (xs : List ℕ)
      → Avoids p xs
      → Segment l b xs e
      → Segment (set_next p v l) b xs e
  Segment-set_next l b e p v [] f h = tt
  Segment-set_next l b e p v (x ∷ xs) f (a, q, n, h) =
      (a, q, ground arith, Segment-set_next l x e p v xs f.1 h)

  pub Segment-set_prev_if :
      (l : Links) (b e p v : ℕ) (xs : List ℕ)
      → Avoids p xs
      → Segment l b xs e
      → Segment (set_prev_if nil p v l) b xs e
  unfolding set_prev_if
  Segment-set_prev_if l b e p v xs f h = elim (Bool-cases (p == nil)) [
    | inl y ↦ rw y h
    | inr n ↦ rw n (Segment-set_prev l b e p v xs f h)
  ]

  pub Segment-set_next_if :
      (l : Links) (b e p v : ℕ) (xs : List ℕ)
      → Avoids p xs
      → Segment l b xs e
      → Segment (set_next_if nil p v l) b xs e
  unfolding set_next_if
  Segment-set_next_if l b e p v xs f h = elim (Bool-cases (p == nil)) [
    | inl y ↦ rw y h
    | inr n ↦ rw n (Segment-set_next l b e p v xs f h)
  ]

  pub set_prev_if-eq : (p v : ℕ) (l : Links) → p ≢ nil → set_prev_if nil p v l ≡ set_prev p v l
  unfolding set_prev_if
  set_prev_if-eq p v l a = rw (ne→== p nil a)

  pub set_next_if-eq : (p v : ℕ) (l : Links) → p ≢ nil → set_next_if nil p v l ≡ set_next p v l
  unfolding set_next_if
  set_next_if-eq p v l a = rw (ne→== p nil a)

  pub set_prev_if-next : (p v : ℕ) (l : Links) (q : ℕ) → (set_prev_if nil p v l).next q ≡ l.next q
  unfolding set_prev_if
  set_prev_if-next p v l q = ground arith

  pub set_next_if-prev : (p v : ℕ) (l : Links) (q : ℕ) → (set_next_if nil p v l).prev q ≡ l.prev q
  unfolding set_next_if
  set_next_if-prev p v l q = ground arith

  pub set_next_if-next_ne :
      (p v : ℕ) (l : Links) (q : ℕ) → q ≢ p → (set_next_if nil p v l).next q ≡ l.next q
  unfolding set_next_if
  set_next_if-next_ne p v l q n = ground arith

  pub set_prev_if-prev_ne :
      (p v : ℕ) (l : Links) (q : ℕ) → q ≢ p → (set_prev_if nil p v l).prev q ≡ l.prev q
  unfolding set_prev_if
  set_prev_if-prev_ne p v l q n = ground arith

  pub Segment-Avoids : (l : Links) (b e : ℕ) (xs : List ℕ) → Segment l b xs e → Avoids nil xs
  Segment-Avoids l b e [] h = tt
  Segment-Avoids l b e (x ∷ xs) (a, p, q, h) = (λ y. a (sym y), Segment-Avoids l x e xs h)

  -- A write to the `prev` of a segment's first record gives it another position before it.
  pub Segment-retarget_start :
      (l : Links) (b e c : ℕ) (xs : List ℕ)
      → Distinct xs
      → Segment l b xs e
      → Segment (set_prev_if nil (head_or e xs) c l) c xs e
  Segment-retarget_start l b e c [] d h = tt
  Segment-retarget_start l b e c (x ∷ xs) (f, d) (a, p, q, h) = (
    a,
    ap (λ (m : Links). m.prev x) (set_prev_if-eq x c l a) ∙ update_self l.prev x c,
    set_prev_if-next x c l x ∙ q,
    Segment-set_prev_if l x e x c xs f h,
  )

  -- A write to the `next` of its last record gives it another position after it.
  pub Segment-retarget_end :
      (l : Links) (b e c : ℕ) (xs : List ℕ)
      → Distinct xs
      → Segment l b xs e
      → Segment (set_next_if nil (last_or b xs) c l) b xs c
  Segment-retarget_end l b e c [] d h = tt
  Segment-retarget_end l b e c (x ∷ []) (f, d) (a, p, q, h) =
      rw (set_next_if-eq x c l a) (a, p, rw (eq→== x x refl) refl, tt)
  Segment-retarget_end l b e c (x ∷ y ∷ ys) (f, d) (a, p, q, h) =
      let other : x ≢ last_or y ys = last_or-ne x y ys f.0 f.1 in
      let r = Segment-retarget_end l x e c (y ∷ ys) d h in
      (
        a,
        set_next_if-prev (last_or y ys) c l x ∙ p,
        set_next_if-next_ne (last_or y ys) c l x other ∙ q,
        r,
      )
