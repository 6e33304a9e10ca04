-- ===== src/ChanfixDb/User/Scores.antt =====
-- The scores of the last 14 days and their total, through a roll.
use efnet_services.Common.{
  ℕ, zero, suc, ◌≡◌, ◌↔◌, ◌≤◌, ◌<◌, ◌+◌, List, [], ◌∷◌, length, take, get_or, arith, length-take,
}
use efnet_services.Run.{u32}
use efnet_services.ChanfixDb.Store.{ChanUser, ChanMode}
use efnet_services.ChanfixDb.User.{roll_user, roll_mode}

abbrev pub sum : List ℕ → ℕ
sum [] = 0
sum (x ∷ xs) = x + sum xs

-- The total of the 14 scores is stored beside them, and does not overflow a u_int.
abbrev pub HasTotal : ℕ → List ℕ → Type 0
HasTotal total scores = (length scores ≡ 14) × (total ≡ sum scores) × (total < u32)

sum-take : (n : ℕ) (xs : List ℕ) → length xs ≡ suc n → sum (take n xs) + get_or xs n 0 ≡ sum xs
sum-take n [] h = absurd (omega arith)
sum-take zero (x ∷ []) h = omega arith
sum-take zero (x ∷ y ∷ xs) h = absurd (omega arith)
sum-take (suc n) (x ∷ xs) h = omega (arith, sum-take n xs (omega arith))

get_or-le-sum : (n : ℕ) (xs : List ℕ) → get_or xs n 0 ≤ sum xs
get_or-le-sum n [] = omega arith
get_or-le-sum zero (x ∷ xs) = omega arith
get_or-le-sum (suc n) (x ∷ xs) = omega (arith, get_or-le-sum n xs)

length-take_13 : (xs : List ℕ) → length xs ≡ 14 → length (take 13 xs) ≡ 13
length-take_13 xs h = omega (arith, length-take 13 xs)

-- When the total of a user is the sum of the 14 scores and fits a u_int, it is so after the roll
-- of the scores, and the total has gone down by the score of the oldest day.
pub roll_user-HasTotal :
    (u : ChanUser)
    → HasTotal u.tot_score u.scores
    → HasTotal (roll_user u).tot_score (roll_user u).scores
      × ((roll_user u).tot_score + get_or u.scores 13 0 ≡ u.tot_score)
roll_user-HasTotal u (len, total, small) =
    let s = sum-take 13 u.scores len in
    ((omega (arith, length-take_13 u.scores len), omega arith, omega arith), omega arith)

-- When the total of a channel mode is the sum of the 14 scores and fits a u_int, it is so after
-- the roll exactly when the score of the fifth day happens to be that of the last day, since the
-- roll takes the score of the fifth day off the total and drops the last one.
pub roll_mode-HasTotal :
    (m : ChanMode)
    → HasTotal m.tot_score m.scores
    → HasTotal (roll_mode m).tot_score (roll_mode m).scores
      ↔ (get_or m.scores 4 0 ≡ get_or m.scores 13 0)
roll_mode-HasTotal m (len, total, small) =
    let s = sum-take 13 m.scores len in
    let five = get_or-le-sum 4 m.scores in
    (
      λ (_, t, _). omega arith,
      λ e. (omega (arith, length-take_13 m.scores len), omega arith, omega arith),
    )
