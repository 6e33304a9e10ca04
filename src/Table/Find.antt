-- ===== src/Table/Find.antt =====
-- The search of one bucket against the list of all records.
use efnet_services.Common.{
  ℕ, suc, ◌≡◌, refl, sym, ap, ◌∙◌, subst, ◌≢◌, ◌⊎◌, inl, inr, ◌<◌, ◌%◌, List, [], ◌∷◌, ◌++◌, Bool,
  true, false, some, length, All, All-map, All-middle, In, All-In, le-sum_upto, Bool-cases, arith,
}
use efnet_services.Links.{scan}
use efnet_services.Links.Segment.{Segment-Avoids}
use efnet_services.Links.Scan.{Found, scan-Found}
use efnet_services.Table.{Table, home}
use efnet_services.Table.Index.{Index}

module _ (nil : ℕ) (t : Table) (cs : List ℕ) (chain : ℕ → List ℕ) (index : Index nil t cs chain)
    (test : ℕ → Bool) (hash : ℕ) (same_hash : (c : ℕ) → test c ≡ true → t.hashv c ≡ hash) where
  -- A record that passes stands in the bucket of the hash.
  none_elsewhere : All (λ c. test c ≡ false) (chain (hash % t.slots)) → All (λ c. test c ≡ false) cs
  none_elsewhere f =
      All-map (λ c. In c (chain (home t c))) (λ c. test c ≡ false) cs
        (λ c i. elim (Bool-cases (test c)) [
          | inr n ↦ n
          | inl y ↦
              All-In (λ k. test k ≡ false) c (chain (hash % t.slots)) f
                (subst (λ k. In c (chain (k % t.slots))) (same_hash c y) i)
        ])
        index.cover

  -- A record of the bucket that passes the test, or `nil` when none of all records does.
  abbrev pub Searched : ℕ → Type 0
  Searched r =
      ((r ≢ nil) × (test r ≡ true) × In r (chain (hash % t.slots)))
      ⊎ ((r ≡ nil) × All (λ c. test c ≡ false) cs)

  In-middle : (r : ℕ) (us vs : List ℕ) → In r (us ++ r ∷ vs)
  In-middle r [] vs = inl refl
  In-middle r (u ∷ us) vs = inr (In-middle r us vs)

  searched : (r : ℕ) → Found nil test (chain (hash % t.slots)) r → Searched r
  searched r (inl (e, f)) = inr (e, none_elsewhere f)
  searched r (inr (us, vs, e, good, f)) =
      let b = index.bucket (hash % t.slots) in
      let a =
        subst (All (λ k. nil ≢ k)) e
          (Segment-Avoids nil t.hash_links nil nil (chain (hash % t.slots)) b.linked) in
      inl (
        (λ k. All-middle (λ k. nil ≢ k) r us vs a (sym k)),
        good,
        subst (In r) (sym e) (In-middle r us vs),
      )

  -- With fuel for one record more than the table has, the search of the bucket ends.
  pub scan-Searched :
      0 < t.slots
      → (r : ℕ) × (scan nil (suc t.num) test t.hash_links (t.buckets (hash % t.slots)) ≡ some r)
        × Searched r
  scan-Searched positive =
      let b = index.bucket (hash % t.slots) in
      let short = le-sum_upto t.slots (hash % t.slots) (λ hv. length (chain hv)) (omega arith) in
      let (r, e, found) =
        scan-Found nil test t.hash_links (suc t.num) nil (chain (hash % t.slots))
          (omega (arith, index.counted, short)) b.linked in
      (r, ap (λ (k : ℕ). scan nil (suc t.num) test t.hash_links k) b.starts ∙ e, searched r found)
