-- ===== src/Chanfix/Top.antt =====
-- _chanfix_get_scores keeps the best of all scores.
use efnet_services.Common.{
  ℕ, zero, suc, ◌≡◌, refl, sym, ap, ◌∙◌, subst, ◌≤◌, ◌<◌, ◌+◌, ◌%◌, List, [], ◌∷◌, ◌++◌, Bool, not,
  ltb, if◌then◌else◌, take, All, All-map, Bool-cases, inl, inr, ltb→lt, ltb-false, arith,
}
use efnet_services.Run.{Text, Result, done, fail}
use efnet_services.ChanfixDb.Store.{ChanfixDb, Platform, check}
use efnet_services.ChanfixDb.User.{chanuser_find}
use efnet_services.Chanfix.Scores.{
  Ignore, Member, ScoreInfo, info_of, place, add_score, members_of, is_valid_userhost, score_found,
  score_member, score_members, get_scores,
}

-- The scores do not rise along the list.
abbrev pub Falls : List ScoreInfo → Type 0
Falls [] = Unit
Falls (s ∷ ss) = All (λ t. t.score ≤ s.score) ss × Falls ss

take-take : (n : ℕ) (ss : List ScoreInfo) → take n (take n ss) ≡ take n ss
take-take zero ss = refl
take-take (suc n) [] = refl
take-take (suc n) (s ∷ ss) = ap (λ k. s ∷ k) (take-take n ss)

take-suc : (n : ℕ) (s : ScoreInfo) (ss : List ScoreInfo) → take n (s ∷ take n ss) ≡ take n (s ∷ ss)
take-suc zero s ss = refl
take-suc (suc n) s ss = ap (λ k. s ∷ k) (drop_last n ss)
  where
    drop_last : (n : ℕ) (ss : List ScoreInfo) → take n (take (suc n) ss) ≡ take n ss
    drop_last zero ss = refl
    drop_last (suc n) [] = refl
    drop_last (suc n) (s ∷ ss) = ap (λ k. s ∷ k) (drop_last n ss)

take-nil : (n : ℕ) → take {A = ScoreInfo} n [] ≡ []
take-nil zero = refl
take-nil (suc n) = refl

-- What does not fit is not needed to place the next total.
take-place :
    (n total : ℕ) (m : Member) (ss : List ScoreInfo)
    → take n (place total m (take n ss)) ≡ take n (place total m ss)
unfolding place
take-place zero total m ss = refl
take-place (suc n) total m [] = refl
take-place (suc n) total m (s ∷ ss) = elim (Bool-cases (ltb s.score total)) [
  | inl y ↦ rw y (ap (λ k. info_of total m ∷ k) (take-suc n s ss))
  | inr k ↦ rw k (ap (λ k. s ∷ k) (take-place n total m ss))
]

place-All :
    (P : ScoreInfo → Type 0) (total : ℕ) (m : Member) (ss : List ScoreInfo)
    → P (info_of total m)
    → All P ss
    → All P (place total m ss)
unfolding place
place-All P total m [] h a = (h, tt)
place-All P total m (s ∷ ss) h (b, a) = elim (Bool-cases (ltb s.score total)) [
  | inl y ↦ rw y (h, (b, a))
  | inr k ↦ rw k (b, place-All P total m ss h a)
]

place-Falls :
    (total : ℕ) (m : Member) (ss : List ScoreInfo)
    → total < 0x1_0000
    → Falls ss
    → Falls (place total m ss)
unfolding place
place-Falls total m [] h f = (tt, tt)
place-Falls total m (s ∷ ss) h (a, f) = elim (Bool-cases (ltb s.score total)) [
  | inl y ↦ rw y (
    (
      omega (arith, ltb→lt s.score total y),
      All-map (λ t. t.score ≤ s.score) (λ t. t.score ≤ total % 0x1_0000) ss
          (λ t k. omega (arith, k, ltb→lt s.score total y)) a,
    ),
    (a, f),
  )
  | inr k ↦ rw k (
    place-All (λ t. t.score ≤ s.score) total m ss (omega (arith, ltb-false s.score total k)) a,
    place-Falls total m ss h f,
  )
]

-- How many entries pass a test.
abbrev pub count : (ScoreInfo → Bool) → List ScoreInfo → ℕ
count p [] = 0
count p (s ∷ ss) = (if p s then 1 else 0) + count p ss

count-place :
    (p : ScoreInfo → Bool) (total : ℕ) (m : Member) (ss : List ScoreInfo)
    → count p (place total m ss) ≡ (if p (info_of total m) then 1 else 0) + count p ss
unfolding place
count-place p total m [] = refl
count-place p total m (s ∷ ss) = elim (Bool-cases (ltb s.score total)) [
  | inl y ↦ rw y refl
  | inr k ↦ rw k (omega (arith, count-place p total m ss))
]

module _ (matches : Text → Text → Bool) (uhignores : List Ignore) (calls : Platform) (chan : ℕ)
    (scores_max score_min : ℕ) (db : ChanfixDb) where
  abbrev entry_of : Member → Result ℕ → List ScoreInfo
  entry_of m (fail e) = []
  entry_of m (done pos) =
      if ltb (db.user pos).tot_score score_min then [] else info_of (db.user pos).tot_score m ∷ []

  -- The users of whom a score is wanted: with a user name that counts, in the database, and with the
  -- score that is asked for.
  abbrev pub wanted : List Member → List ScoreInfo
  wanted [] = []
  wanted (m ∷ ms) =
      if not (is_valid_userhost matches uhignores m.userhost)
      then wanted ms
      else entry_of m (chanuser_find calls chan m.userhost db).0 ++ wanted ms

  -- The best of the scores `ws`: the first of a list of them all that does not rise.
  abbrev pub Best : List ScoreInfo → List ScoreInfo → Type 0
  Best ws r =
      (all : List ScoreInfo) × (r ≡ take scores_max all)
      × Falls all
      × ((p : ScoreInfo → Bool) → count p all ≡ count p ws)

  count-append :
      (p : ScoreInfo → Bool) (ss ts : List ScoreInfo) → count p (ss ++ ts) ≡ count p ss + count p ts
  count-append p [] ts = omega arith
  count-append p (s ∷ ss) ts = omega (arith, count-append p ss ts)

  module _ (ok : check calls db ≡ (done tt, db))
      (small : (pos : ℕ) → (db.user pos).tot_score < 0x1_0000) where
    finds_same : (m : Member) → (chanuser_find calls chan m.userhost db).1 ≡ db
    unfolding chanuser_find
    finds_same m = rw ok refl

    -- A list of all scores so far, with those of one member more.
    added :
        (m : Member) (all : List ScoreInfo) (r : Result ℕ × ChanfixDb)
        → r.1 ≡ db
        → Falls all
        → (more : List ScoreInfo) × (score_found matches uhignores calls chan scores_max score_min m
              (take scores_max all)
              r
            ≡ (take scores_max more, db))
          × Falls more
          × ((p : ScoreInfo → Bool) → count p more ≡ count p all + count p (entry_of m r.0))
    unfolding add_score
    added m all (fail e, d) i f = (all, ap (λ k. (take scores_max all, k)) i, f, (λ p. omega arith))
    added m all (done pos, d) i f = elim (Bool-cases (ltb (db.user pos).tot_score score_min)) [
      | inl y ↦ (
        all,
        subst
            (λ k.
              score_found matches uhignores calls chan scores_max score_min m (take scores_max all)
                (done pos, k)
              ≡ (take scores_max all, db))
            (sym i) (rw y refl),
        f,
        (λ p. rw y (omega arith)),
      )
      | inr n ↦ (
        place (db.user pos).tot_score m all,
        subst
            (λ k.
              score_found matches uhignores calls chan scores_max score_min m (take scores_max all)
                (done pos, k)
              ≡ (take scores_max (place (db.user pos).tot_score m all), db))
            (sym i)
            (rw n (ap (λ k. (k, db)) (take-place scores_max (db.user pos).tot_score m all))),
        place-Falls (db.user pos).tot_score m all (small pos) f,
        (λ p. rw n (omega (arith, count-place p (db.user pos).tot_score m all))),
      )
    ]

    score_members-Best :
        (ms : List Member) (all : List ScoreInfo)
        → Falls all
        → (more : List ScoreInfo) × (score_members matches uhignores calls chan scores_max score_min
              ms
              (take scores_max all, db)
            ≡ (take scores_max more, db))
          × Falls more
          × ((p : ScoreInfo → Bool) → count p more ≡ count p all + count p (wanted ms))
    unfolding score_members score_member
    score_members-Best [] all f = (all, refl, f, (λ p. omega arith))
    score_members-Best (m ∷ ms) all f =
        elim (Bool-cases (is_valid_userhost matches uhignores m.userhost)) [
          | inr n ↦
              let (more, e, g, c) = score_members-Best ms all f in
              (more, rw n e, g, (λ p. rw n (c p)))
          | inl y ↦
              let r = chanuser_find calls chan m.userhost db in
              let (one, e, g, c) = added m all r (finds_same m) f in
              let (more, e', g', c') = score_members-Best ms one g in
              (
                more,
                rw (y, e) e',
                g',
                (λ p. rw y (omega (arith, c p, c' p, count-append p (entry_of m r.0) (wanted ms)))),
              )
        ]

    -- When the mapping is up to date and no user has a score of more than a u_short, _chanfix_get_scores
    -- returns the best scores of the clients that it looks at, as many as there is room for, in an
    -- order that does not rise, and changes nothing.
    pub get_scores-Best :
        (ops_only both : Bool) (non_ops ops : List Member)
        → ((get_scores matches uhignores calls chan scores_max score_min ops_only both non_ops ops
              db).1
            ≡ db)
          × Best
              (wanted (members_of ops_only both non_ops ops))
              (get_scores matches uhignores calls chan scores_max score_min ops_only both non_ops
                ops db).0
    unfolding get_scores
    get_scores-Best ops_only both non_ops ops =
        let ms = members_of ops_only both non_ops ops in
        let (more, e, g, c) = score_members-Best ms [] tt in
        let i =
          ap (λ k. score_members matches uhignores calls chan scores_max score_min ms (k, db))
            (sym (take-nil scores_max))
          ∙ e in
        (ap (λ k. k.1) i, (more, ap (λ k. k.0) i, g, (λ p. omega (arith, c p))))
