-- ===== src/Chanfix/Rank.antt =====
-- The score that a pass asks for is that of the user of a rank, whichever way the list is followed.
use efnet_services.Common.{
  ℕ, zero, suc, ◌≡◌, refl, sym, ap, ◌∙◌, subst, ◌⊎◌, inl, inr, ◌≤◌, ◌<◌, ◌-◌, List, [], ◌∷◌, ◌++◌,
  leb, ltb, length, length-append, head_or, last_or, false, head_or-append, last_or-append,
  append_assoc, append-nil, Bool-cases, ne→==, leb→le, arith,
}
use efnet_services.Links.{Links}
use efnet_services.Links.Segment.{Segment, Segment-left, Segment-right}
use efnet_services.Run.{npos, add32, sub32}
use efnet_services.ChanfixDb.Store.{ChanfixDb, sorted_users}
use efnet_services.ChanfixDb.Sorted.Place.{Holds}
use efnet_services.ChanfixDb.Sorted.Order.{
  IsSorted, AllAbove, AllBelow, IsSorted-right, IsSorted-before, snoc-cases,
}
use efnet_services.Chanfix.Needed.{walk_users, score_needed}

module _ (l : Links) where
  -- Forwards, the loop ends at the last of the first records.
  forward :
      (n b cur : ℕ) (xs : List ℕ)
      → n ≤ length xs
      → Segment npos l b xs npos
      → (us vs : List ℕ) × (xs ≡ us ++ vs)
        × (length us ≡ n)
        × (walk_users l.next n (head_or npos xs) cur ≡ last_or cur us)
  unfolding walk_users
  forward zero b cur xs h s = ([], xs, refl, refl, refl)
  forward (suc n) b cur [] h s = absurd (omega arith)
  forward (suc n) b cur (x ∷ xs) h (p, q, e, s) =
      let (us, vs, i, k, w) = forward n x x xs (omega arith) s in
      (
        x ∷ us,
        vs,
        ap (λ k. x ∷ k) i,
        omega (arith, k),
        rw (ne→== x npos p) (ap (λ k. walk_users l.next n k x) e ∙ w),
      )

  -- Backwards, it ends at the first of the last records.
  backward :
      (n cur e : ℕ) (ws : List ℕ)
      → n ≤ length ws
      → Segment npos l npos ws e
      → (us vs : List ℕ) × (ws ≡ us ++ vs)
        × (length vs ≡ n)
        × (walk_users l.prev n (last_or npos ws) cur ≡ head_or cur vs)
  unfolding walk_users
  backward zero cur e ws h s = (ws, [], sym (append-nil ws), refl, refl)
  backward (suc n) cur e ws h s = elim (snoc-cases ws) [
    | inl i ↦ absurd (omega (arith, ap length i))
    | inr (ts, z, i) ↦
        let s' = subst (λ k. Segment npos l npos k e) i s in
        let (p, q, _, _) = Segment-right npos l npos e ts (z ∷ []) s' in
        let (us, vs, j, k, w) =
          backward n z z ts (omega (arith, ap length i, length-append ts (z ∷ [])))
            (Segment-left npos l npos e ts (z ∷ []) s') in
        (
          us,
          vs ++ z ∷ [],
          i ∙ ap (λ k. k ++ z ∷ []) j ∙ append_assoc us vs (z ∷ []),
          omega (arith, k, length-append vs (z ∷ [])),
          ap (λ k. walk_users l.prev (suc n) k cur)
                (ap (last_or npos) i ∙ last_or-append npos ts (z ∷ []))
              ∙ rw (ne→== z npos p)
                  (ap (λ k. walk_users l.prev n k z) q ∙ w ∙ sym (head_or-append cur vs (z ∷ []))),
        )
  ]

module _ (db : ChanfixDb) (chan : ℕ) (xs : List ℕ)
    (good : Holds npos (sorted_users chan db) xs) where
  abbrev score : ℕ → ℕ
  score p = (db.user p).tot_score

  -- The score is that of a user with a number of users of the channel from it on, which are not below
  -- it, and the others are not above it.
  abbrev pub Ranked : ℕ → ℕ → Type 0
  Ranked users needed =
      (us vs : List ℕ) × (y : ℕ) × (xs ≡ us ++ y ∷ vs)
      × (length (y ∷ vs) ≡ users)
      × (needed ≡ (db.user y).tot_score)
      × AllAbove (λ p. (db.user p).tot_score) needed (y ∷ vs)
      × AllBelow (λ p. (db.user p).tot_score) needed us

  module _ (sorted : IsSorted score xs) where
    ranked :
        (us vs : List ℕ) (y needed : ℕ)
        → xs ≡ us ++ y ∷ vs
        → needed ≡ score y
        → Ranked (length (y ∷ vs)) needed
    ranked us vs y needed i e =
        let o = subst (IsSorted score) i sorted in
        (
          us,
          vs,
          y,
          i,
          refl,
          e,
          subst (λ k. AllAbove score k (y ∷ vs)) (sym e)
              (omega arith, (IsSorted-right score us (y ∷ vs) o).0),
          subst (λ k. AllBelow score k us) (sym e) (IsSorted-before score y us vs o),
        )

    by_first :
        (n users : ℕ)
        → n ≡ suc (length xs) - users
        → 0 < users
        → users < length xs
        → Ranked users (score (walk_users db.user_s.next n (db.chan chan).users_sorted_first npos))
    by_first n users i h k =
        let (us, vs, e, j, w) = forward db.user_s n npos npos xs (omega (arith, i)) good.linked in
        elim (snoc-cases us) [
          | inl z ↦ absurd (omega (arith, i, j, ap length z))
          | inr (ts, y, z) ↦
              let e' : xs ≡ ts ++ y ∷ vs = e ∙ ap (λ k. k ++ vs) z ∙ append_assoc ts (y ∷ []) vs in
              subst
                (λ k.
                  Ranked k
                    (score (walk_users db.user_s.next n (db.chan chan).users_sorted_first npos)))
                (omega (
                  arith,
                  i,
                  j,
                  ap length z,
                  ap length e',
                  length-append ts (y ∷ vs),
                  length-append ts (y ∷ []),
                ))
                (ranked ts vs y
                  (score (walk_users db.user_s.next n (db.chan chan).users_sorted_first npos)) e'
                  (ap (λ k. score (walk_users db.user_s.next n k npos)) good.starts
                    ∙ ap score (w ∙ ap (last_or npos) z ∙ last_or-append npos ts (y ∷ []))))
        ]

    by_last :
        (users : ℕ)
        → 0 < users
        → users < length xs
        → Ranked users
            (score (walk_users db.user_s.prev users (db.chan chan).users_sorted_last npos))
    by_last users h k =
        let (us, vs, e, j, w) = backward db.user_s users npos npos xs (omega arith) good.linked in
        go us vs e j (ap (λ k. walk_users db.user_s.prev users k npos) good.stops ∙ w)
      where
        go :
            (us vs : List ℕ)
            → xs ≡ us ++ vs
            → length vs ≡ users
            → walk_users db.user_s.prev users (db.chan chan).users_sorted_last npos
              ≡ head_or npos vs
            → Ranked users
                (score (walk_users db.user_s.prev users (db.chan chan).users_sorted_last npos))
        go us [] e j w = absurd (omega (arith, j))
        go us (y ∷ vs) e j w =
            subst
              (λ k.
                Ranked k
                  (score (walk_users db.user_s.prev users (db.chan chan).users_sorted_last npos)))
              j
              (ranked us vs y
                (score (walk_users db.user_s.prev users (db.chan chan).users_sorted_last npos)) e
                (ap score w))

    -- When the list of the users of a channel is well linked and in order, and `cfc_users_num` counts
    -- them and is below the largest u_int, a pass over a number of users that is not 0 asks for no score
    -- when the channel has no more users than that, and else for the score of the user of that rank from
    -- the best one down: so many users have it, whichever end the loop starts from.
    pub score_needed-Ranked :
        (users : ℕ)
        → (db.chan chan).users_num ≡ length xs
        → (db.chan chan).users_num < npos
        → 0 < users
        → ((length xs ≤ users) × (score_needed db chan users ≡ 0))
          ⊎ ((users < length xs) × Ranked users (score_needed db chan users))
    unfolding score_needed
    score_needed-Ranked users counted small positive =
        let n = sub32 (add32 1 (db.chan chan).users_num) users in
        elim (Bool-cases (leb (db.chan chan).users_num users)) [
          | inl y ↦ inl (omega (arith, counted, leb→le (db.chan chan).users_num users y), rw y refl)
          | inr m ↦
              let below : users < length xs = lower users counted m in
              elim (Bool-cases (ltb n users)) [
                | inl y ↦
                    let e : score_needed db chan users
                        ≡ score
                            (walk_users db.user_s.next n (db.chan chan).users_sorted_first npos) =
                      rw (m, y, score_needed) refl in
                    inr (
                      below,
                      subst (Ranked users) (sym e)
                          (by_first n users (omega (arith, counted, small, below)) positive below),
                    )
                | inr k ↦
                    let e : score_needed db chan users
                        ≡ score (
                            walk_users db.user_s.prev users (db.chan chan).users_sorted_last npos) =
                      rw (m, k, score_needed) refl in
                    inr (below, subst (Ranked users) (sym e) (by_last users positive below))
              ]
        ]
      where
        lower :
            (users : ℕ)
            → (db.chan chan).users_num ≡ length xs
            → leb (db.chan chan).users_num users ≡ false
            → users < length xs
        lower users e m = ground arith
