-- ===== src/ChanfixDb/Sorted/Order.antt =====
-- Lists of records in order of their scores, and the two searches along the links.
use efnet_services.Common.{
  ℕ, zero, suc, ◌≡◌, refl, sym, ap, ◌∙◌, ◌⊎◌, inl, inr, ◌≤◌, ◌<◌, List, [], ◌∷◌, ◌++◌, some, ltb,
  length, head_or, last_or, All, All-append, All-append_left, All-append_right, All-remove,
  Bool-cases, eq→==, ne→==, ltb→lt, ltb-false, arith, append_assoc, append-nil, last_or-append,
  subst, length-append,
}
use efnet_services.Links.{Links}
use efnet_services.Links.Segment.{Segment, Segment-right, Segment-left}
use efnet_services.ChanfixDb.Sorted.{search_forward, search_backward}

module _ (score : ℕ → ℕ) where
  -- The scores of the records do not fall along the list.
  abbrev pub IsSorted : List ℕ → Type 0
  IsSorted [] = Unit
  IsSorted (x ∷ xs) = All (λ y. score x ≤ score y) xs × IsSorted xs

  abbrev pub AllBelow : ℕ → List ℕ → Type 0
  AllBelow s = All (λ y. score y ≤ s)

  abbrev pub AllAbove : ℕ → List ℕ → Type 0
  AllAbove s = All (λ y. s ≤ score y)

  pub IsSorted-left : (xs ys : List ℕ) → IsSorted (xs ++ ys) → IsSorted xs
  IsSorted-left [] ys h = tt
  IsSorted-left (x ∷ xs) ys (f, h) =
      (All-append_left (λ y. score x ≤ score y) xs ys f, IsSorted-left xs ys h)

  pub IsSorted-right : (xs ys : List ℕ) → IsSorted (xs ++ ys) → IsSorted ys
  IsSorted-right [] ys h = h
  IsSorted-right (x ∷ xs) ys h = IsSorted-right xs ys h.1

  pub IsSorted-remove : (x : ℕ) (xs ys : List ℕ) → IsSorted (xs ++ x ∷ ys) → IsSorted (xs ++ ys)
  IsSorted-remove x [] ys h = h.1
  IsSorted-remove x (z ∷ xs) ys (f, h) =
      (All-remove (λ y. score z ≤ score y) x xs ys f, IsSorted-remove x xs ys h)

  pub IsSorted-insert :
      (x : ℕ) (xs ys : List ℕ)
      → IsSorted (xs ++ ys)
      → AllBelow (score x) xs
      → AllAbove (score x) ys
      → IsSorted (xs ++ x ∷ ys)
  IsSorted-insert x [] ys h b a = (a, h)
  IsSorted-insert x (z ∷ xs) ys (f, h) (lo, b) a = (
    All-append (λ y. score z ≤ score y) xs (x ∷ ys)
        (All-append_left (λ y. score z ≤ score y) xs ys f)
        (lo, All-append_right (λ y. score z ≤ score y) xs ys f),
    IsSorted-insert x xs ys h b a,
  )

  -- What stands before a record of a sorted list is not above it.
  pub IsSorted-before : (y : ℕ) (xs ys : List ℕ) → IsSorted (xs ++ y ∷ ys) → AllBelow (score y) xs
  IsSorted-before y [] ys h = tt
  IsSorted-before y (x ∷ xs) ys (f, h) =
      ((All-append_right (λ z. score x ≤ score z) xs (y ∷ ys) f).0, IsSorted-before y xs ys h)

  pub AllBelow-mono : (s t : ℕ) (xs : List ℕ) → s ≤ t → AllBelow s xs → AllBelow t xs
  AllBelow-mono s t [] h a = tt
  AllBelow-mono s t (x ∷ xs) h (b, a) = (omega arith, AllBelow-mono s t xs h a)

  pub AllAbove-mono : (s t : ℕ) (xs : List ℕ) → t ≤ s → AllAbove s xs → AllAbove t xs
  AllAbove-mono s t [] h a = tt
  AllAbove-mono s t (x ∷ xs) h (b, a) = (omega arith, AllAbove-mono s t xs h a)

pub snoc-cases {ℓ} :
    {A : Type ℓ} (xs : List A) → (xs ≡ []) ⊎ ((ws : List A) × (z : A) × (xs ≡ ws ++ z ∷ []))
snoc-cases [] = inl refl
snoc-cases (x ∷ xs) = elim (snoc-cases xs) [
  | inl e ↦ inr ([], x, ap (λ l. x ∷ l) e)
  | inr (ws, z, e) ↦ inr (x ∷ ws, z, ap (λ l. x ∷ l) e)
]

module _ (nil : ℕ) (score : ℕ → ℕ) (l : Links) where
  -- The forward search stops at the first record that is not below `s`, or at the end.
  pub search_forward-Splits :
      (fuel s b y : ℕ) (ys : List ℕ)
      → length ys < fuel
      → IsSorted score ys
      → Segment nil l b (y ∷ ys) nil
      → (us vs : List ℕ) × (ys ≡ us ++ vs)
        × (search_forward nil score l fuel s y ≡ some (head_or nil vs))
        × AllBelow score s us
        × AllAbove score s vs
  unfolding search_forward
  search_forward-Splits zero s b y ys h o g = absurd (omega arith)
  search_forward-Splits (suc fuel) s b y [] h o (a, p, q, g) =
      ([], [], refl, rw (q, eq→== nil nil refl) refl, tt, tt)
  search_forward-Splits (suc fuel) s b y (z ∷ zs) h (f, o) (a, p, q, g) =
      elim (Bool-cases (ltb (score z) s)) [
        | inl lo ↦
            let (us, vs, e, r, below, above) =
              search_forward-Splits fuel s y z zs (omega arith) o g in
            (
              z ∷ us,
              vs,
              ap (λ k. z ∷ k) e,
              rw (q, ne→== z nil g.0, lo) r,
              (omega (arith, ltb→lt (score z) s lo), below),
              above,
            )
        | inr hi ↦ (
          [],
          z ∷ zs,
          refl,
          rw (q, ne→== z nil g.0, hi) refl,
          tt,
          (
            ltb-false (score z) s hi,
            AllAbove-mono score (score z) s zs (ltb-false (score z) s hi) f,
          ),
        )
      ]

  -- The backward search stops at the last record that is not above `s`, or at the start.
  pub search_backward-Splits :
      (fuel s e y : ℕ) (xs : List ℕ)
      → length xs < fuel
      → IsSorted score xs
      → l.prev y ≡ last_or nil xs
      → Segment nil l nil xs e
      → (us vs : List ℕ) × (xs ≡ us ++ vs)
        × (search_backward nil score l fuel s y ≡ some (last_or nil us))
        × AllBelow score s us
        × AllAbove score s vs
  unfolding search_backward
  search_backward-Splits zero s e y xs h o p g = absurd (omega arith)
  search_backward-Splits (suc fuel) s e y xs h o p g = elim (snoc-cases xs) [
    | inl i ↦
        let p' : l.prev y ≡ nil = p ∙ ap (last_or nil) i in
        ([], [], i, rw (p', eq→== nil nil refl) refl, tt, tt)
    | inr (ws, z, i) ↦
        let o' : IsSorted score (ws ++ z ∷ []) = subst (IsSorted score) i o in
        let g' : Segment nil l nil (ws ++ z ∷ []) e = subst (λ k. Segment nil l nil k e) i g in
        let p' : l.prev y ≡ z = p ∙ ap (last_or nil) i ∙ last_or-append nil ws (z ∷ []) in
        let (a, q, _, _) = Segment-right nil l nil e ws (z ∷ []) g' in
        let short : length ws < fuel = omega (arith, ap length i, length-append ws (z ∷ [])) in
        elim (Bool-cases (ltb s (score z))) [
          | inl hi ↦
              let (us, vs, j, r, below, above) =
                search_backward-Splits fuel s z z ws short (IsSorted-left score ws (z ∷ []) o') q
                  (Segment-left nil l nil e ws (z ∷ []) g') in
              (
                us,
                vs ++ z ∷ [],
                i ∙ ap (λ k. k ++ z ∷ []) j ∙ append_assoc us vs (z ∷ []),
                rw (p', ne→== z nil a, hi) r,
                below,
                All-append (λ k. s ≤ score k) vs (z ∷ []) above
                    (omega (arith, ltb→lt s (score z) hi), tt),
              )
          | inr lo ↦
              let le : score z ≤ s = ltb-false s (score z) lo in
              (
                ws ++ z ∷ [],
                [],
                i ∙ sym (append-nil (ws ++ z ∷ [])),
                rw (p', ne→== z nil a, lo) (ap some (sym (last_or-append nil ws (z ∷ [])))),
                All-append (λ k. score k ≤ s) ws (z ∷ [])
                    (AllBelow-mono score (score z) s ws le (IsSorted-before score z ws [] o'))
                    (le, tt),
                tt,
              )
        ]
  ]
