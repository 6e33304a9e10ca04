-- ===== src/ChanfixDb/Sorted/Sort.antt =====
-- chanfixdb_chanuser_sort on the list of a channel: after a change of one user's score, the list is
-- in order again.
use efnet_services.Common.{
  ℕ, ◌≡◌, refl, sym, ap, ◌∙◌, subst, ◌≢◌, ◌≤◌, ◌<◌, List, [], ◌∷◌, ◌++◌, some, ◌==◌, leb, ltb, true,
  false, not, ◌&&◌, leb→le, leb-false, length, head_or, last_or, All, All-append, Bool-cases, inl,
  inr, eq→==, ne→==, ltb→lt, ltb-false, arith, append_assoc, length-append, Distinct-middle,
  last_or-append,
}
use efnet_services.Links.{Ends}
use efnet_services.Links.Segment.{Segment-right, Segment-left}
use efnet_services.ChanfixDb.Sorted.{take_out, sort_list, move_forward, move_backward}
use efnet_services.ChanfixDb.Sorted.Place.{
  Holds, take_out-Holds, move_forward-Holds, move_backward-Holds,
}
use efnet_services.ChanfixDb.Sorted.Order.{
  IsSorted, AllAbove, IsSorted-left, IsSorted-right, IsSorted-insert, IsSorted-before,
  AllBelow-mono, AllAbove-mono, search_forward-Splits, search_backward-Splits, snoc-cases,
}

module _ (nil fuel : ℕ) (score : ℕ → ℕ) where
  -- The sort returns a list in order, with `x` somewhere among `rest`, whose order is unchanged.
  abbrev pub Sorts : ℕ → List ℕ → Ends → Type 0
  Sorts x rest e =
      (r : Ends) × (us vs : List ℕ) × (sort_list nil fuel score x e ≡ some r)
      × (us ++ vs ≡ rest)
      × Holds nil r (us ++ x ∷ vs)
      × IsSorted score (us ++ x ∷ vs)

  module _ (x : ℕ) (xs : List ℕ) (e : Ends) where
    up :
        (y : ℕ) (ys : List ℕ)
        → Holds nil e (xs ++ x ∷ y ∷ ys)
        → IsSorted score (xs ++ y ∷ ys)
        → length (xs ++ y ∷ ys) < fuel
        → ltb (score y) (score x) ≡ true
        → Sorts x (xs ++ y ∷ ys) e
    unfolding sort_list
    up y ys h o enough t =
        let (a, p, q, hy) = Segment-right nil e.links nil nil xs (x ∷ y ∷ ys) h.linked in
        let oy = IsSorted-right score xs (y ∷ ys) o in
        let lt = ltb→lt (score y) (score x) t in
        let (us, vs, i, found, below, above) =
          search_forward-Splits nil score e.links fuel (score x) x y ys
            (omega (arith, length-append xs (y ∷ ys))) oy.1 hy in
        let j : (xs ++ y ∷ us) ++ vs ≡ xs ++ y ∷ ys =
          append_assoc xs (y ∷ us) vs ∙ ap (λ k. xs ++ y ∷ k) (sym i) in
        let out = take_out-Holds nil x xs (y ∷ ys) e h in
        let below_x =
          All-append (λ k. score k ≤ score x) xs (y ∷ us)
            (AllBelow-mono score (score y) (score x) xs (omega arith)
              (IsSorted-before score y xs ys o))
            (omega arith, below) in
        (
          move_forward nil x (take_out nil x e) (head_or nil vs),
          xs ++ y ∷ us,
          vs,
          rw (q, ne→== y nil hy.0, t, found) refl,
          j,
          move_forward-Holds nil x (xs ++ y ∷ us) vs _ a
              (subst (All (λ k. x ≢ k)) (sym j) (Distinct-middle x xs (y ∷ ys) h.distinct))
              (subst (Holds nil _) (sym j) out),
          IsSorted-insert score x (xs ++ y ∷ us) vs (subst (IsSorted score) (sym j) o) below_x
              above,
        )

  module _ (x : ℕ) (e : Ends) where
    -- The first test of the code fails.
    abbrev Level : Type 0
    Level = (not (e.links.next x == nil) && ltb (score (e.links.next x)) (score x)) ≡ false

    stay_first :
        (ys : List ℕ)
        → Holds nil e (x ∷ ys)
        → IsSorted score ys
        → AllAbove score (score x) ys
        → Level
        → Sorts x ys e
    unfolding sort_list
    stay_first ys h o above t =
        (e, [], ys, rw (t, h.linked.1, eq→== nil nil refl) refl, refl, h, (above, o))

    down :
        (ws : List ℕ) (z : ℕ) (ys : List ℕ)
        → Holds nil e ((ws ++ z ∷ []) ++ x ∷ ys)
        → IsSorted score ((ws ++ z ∷ []) ++ ys)
        → length ((ws ++ z ∷ []) ++ ys) < fuel
        → AllAbove score (score x) ys
        → Level
        → Sorts x ((ws ++ z ∷ []) ++ ys) e
    unfolding sort_list
    down ws z ys h o enough above t =
        let xs = ws ++ z ∷ [] in
        let (a, p, q, hy) = Segment-right nil e.links nil nil xs (x ∷ ys) h.linked in
        let hx = Segment-left nil e.links nil nil xs (x ∷ ys) h.linked in
        let (b, pz, _, _) = Segment-right nil e.links nil x ws (z ∷ []) hx in
        let ox = IsSorted-left score xs ys o in
        let p' : e.links.prev x ≡ z = p ∙ last_or-append nil ws (z ∷ []) in
        elim (Bool-cases (leb (score z) (score x))) [
          | inl le ↦
              let z_below : score z ≤ score x = leb→le (score z) (score x) le in
              (
                e,
                xs,
                ys,
                rw (t, p', ne→== z nil b, le) refl,
                refl,
                h,
                IsSorted-insert score x xs ys o
                    (All-append (λ k. score k ≤ score x) ws (z ∷ [])
                      (AllBelow-mono score (score z) (score x) ws z_below
                        (IsSorted-before score z ws [] ox))
                      (z_below, tt))
                    above,
              )
          | inr gt ↦
              let (us, vs, i, found, below, above_x) =
                search_backward-Splits nil score e.links fuel (score x) z z ws
                  (omega (arith, length-append xs ys, length-append ws (z ∷ [])))
                  (IsSorted-left score ws (z ∷ []) ox) pz
                  (Segment-left nil e.links nil x ws (z ∷ []) hx) in
              let j : us ++ (vs ++ z ∷ ys) ≡ xs ++ ys =
                sym (append_assoc us vs (z ∷ ys))
                ∙ ap (λ k. k ++ z ∷ ys) (sym i)
                ∙ sym (append_assoc ws (z ∷ []) ys) in
              let out = take_out-Holds nil x xs ys e h in
              (
                move_backward nil x (take_out nil x e) (last_or nil us),
                us,
                vs ++ z ∷ ys,
                rw (t, p', ne→== z nil b, gt, found) refl,
                j,
                move_backward-Holds nil x us (vs ++ z ∷ ys) _ a
                    (subst (All (λ k. x ≢ k)) (sym j) (Distinct-middle x xs ys h.distinct))
                    (subst (Holds nil _) (sym j) out),
                IsSorted-insert score x us (vs ++ z ∷ ys) (subst (IsSorted score) (sym j) o) below (
                    All-append (λ k. score x ≤ score k) vs (z ∷ ys) above_x
                      (leb-false (score z) (score x) gt, above)),
              )
        ]

    settle :
        (xs ys : List ℕ)
        → Holds nil e (xs ++ x ∷ ys)
        → IsSorted score (xs ++ ys)
        → length (xs ++ ys) < fuel
        → AllAbove score (score x) ys
        → Level
        → Sorts x (xs ++ ys) e
    settle xs ys h o enough above t = elim (snoc-cases xs) [
      | inl i ↦
          subst (λ k. Sorts x (k ++ ys) e) (sym i)
            (stay_first ys (subst (λ k. Holds nil e (k ++ x ∷ ys)) i h)
              (subst (λ k. IsSorted score (k ++ ys)) i o) above t)
      | inr (ws, z, i) ↦
          subst (λ k. Sorts x (k ++ ys) e) (sym i)
            (down ws z ys (subst (λ k. Holds nil e (k ++ x ∷ ys)) i h)
              (subst (λ k. IsSorted score (k ++ ys)) i o)
              (subst (λ k. length (k ++ ys) < fuel) i enough) above t)
    ]

  -- When a list is well linked, all its users but `x` are in order, and there is fuel for the
  -- length of the list, the sort returns a well linked list in order that holds the same users,
  -- the others in the order that they had.
  pub sort_list-Sorts :
      (x : ℕ) (xs ys : List ℕ) (e : Ends)
      → Holds nil e (xs ++ x ∷ ys)
      → IsSorted score (xs ++ ys)
      → length (xs ++ ys) < fuel
      → Sorts x (xs ++ ys) e
  sort_list-Sorts x xs [] e h o enough =
      let (a, p, q, hy) = Segment-right nil e.links nil nil xs (x ∷ []) h.linked in
      settle x e xs [] h o enough tt (rw (q, eq→== nil nil refl) refl)
  sort_list-Sorts x xs (y ∷ ys) e h o enough =
      let (a, p, q, hy) = Segment-right nil e.links nil nil xs (x ∷ y ∷ ys) h.linked in
      elim (Bool-cases (ltb (score y) (score x))) [
        | inl lo ↦ up x xs e y ys h o enough lo
        | inr hi ↦
            let le = ltb-false (score y) (score x) hi in
            settle x e xs (y ∷ ys) h o enough
              (
                le,
                AllAbove-mono score (score y) (score x) ys le
                    (IsSorted-right score xs (y ∷ ys) o).0,
              )
              (rw (q, ne→== y nil hy.0, hi) refl)
      ]
