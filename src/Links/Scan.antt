-- ===== src/Links/Scan.antt =====
-- What a search along the links finds.
use efnet_services.Common.{
  ℕ, zero, suc, ◌≡◌, refl, ap, ◌⊎◌, inl, inr, ◌<◌, List, [], ◌∷◌, ◌++◌, Bool, true, false, some,
  length, head_or, All, Bool-cases, eq→==, ne→==, arith,
}
use efnet_services.Links.{Links, scan}
use efnet_services.Links.Segment.{Segment}

module _ (nil : ℕ) (test : ℕ → Bool) where
  -- The first record of the list that passes the test, or `nil` when none does.
  abbrev pub Found : List ℕ → ℕ → Type 0
  Found bs r =
      ((r ≡ nil) × All (λ b. test b ≡ false) bs)
      ⊎ ((us : List ℕ) × (vs : List ℕ) × (bs ≡ us ++ r ∷ vs)
          × (test r ≡ true)
          × All (λ b. test b ≡ false) us)

  Found-cons : {x r : ℕ} {xs : List ℕ} → test x ≡ false → Found xs r → Found (x ∷ xs) r
  Found-cons bad (inl (e, all)) = inl (e, (bad, all))
  Found-cons {x} bad (inr (us, vs, e, good, all)) =
      inr (x ∷ us, vs, ap (λ k. x ∷ k) e, good, (bad, all))

  -- With fuel for the length of the list the search ends, at the first record that passes.
  pub scan-Found :
      (l : Links) (fuel b : ℕ) (bs : List ℕ)
      → length bs < fuel
      → Segment nil l b bs nil
      → (r : ℕ) × (scan nil fuel test l (head_or nil bs) ≡ some r) × Found bs r
  unfolding scan
  scan-Found l zero b bs h g = absurd (omega arith)
  scan-Found l (suc fuel) b [] h g = (nil, rw (eq→== nil nil refl) refl, inl (refl, tt))
  scan-Found l (suc fuel) b (x ∷ xs) h (a, p, q, g) = elim (Bool-cases (test x)) [
    | inl good ↦ (x, rw (ne→== x nil a, good) refl, inr ([], xs, refl, good, tt))
    | inr bad ↦
        let (r, e, f) = scan-Found l fuel x xs (omega arith) g in
        (r, rw (ne→== x nil a, bad, q) e, Found-cons bad f)
  ]
