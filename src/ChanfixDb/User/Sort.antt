-- ===== src/ChanfixDb/User/Sort.antt =====
-- chanfixdb_chanuser_sort and the step of chanfixdb_chanuser_roll on the list of a channel's users.
use efnet_services.Common.{
  ℕ, suc, ◌≡◌, refl, ◌≢◌, ◌⊎◌, ◌≤◌, List, [], ◌∷◌, ◌++◌, length, All, All-zip, eq→==, arith, update,
}
use efnet_services.ChanfixDb.Sorted.Place.{Holds}
use efnet_services.ChanfixDb.Sorted.Order.{IsSorted}
use efnet_services.ChanfixDb.Sorted.Sort.{sort_list-Sorts}
use efnet_services.Run.{done, npos}
use efnet_services.Region
use efnet_services.ChanfixDb.Store.{ChanfixDb, Platform, sorted_users, write_user}
use efnet_services.ChanfixDb.User.{sort_user, roll_user}

abbrev pub score_of : ChanfixDb → ℕ → ℕ
score_of db p = (db.user p).tot_score

-- The channel's list stands for `xs` in order of the scores.
abbrev pub InOrder : ChanfixDb → ℕ → List ℕ → Type 0
InOrder db chan xs = Holds npos (sorted_users chan db) xs × IsSorted (score_of db) xs

-- Some place for `pos` among the others puts the channel's list in order.
abbrev pub Placed : ChanfixDb → ℕ → ℕ → List ℕ → Type 0
Placed db chan pos rest = (us vs : List ℕ) × (us ++ vs ≡ rest) × InOrder db chan (us ++ pos ∷ vs)

pub IsSorted-frame :
    (f g : ℕ → ℕ) (xs : List ℕ) → All (λ x. g x ≡ f x) xs → IsSorted f xs → IsSorted g xs
IsSorted-frame f g [] same h = tt
IsSorted-frame f g (x ∷ xs) (e, same) (k, h) = (
  All-zip (λ y. g y ≡ f y) (λ y. f x ≤ f y) (λ y. g x ≤ g y) xs (λ y i j. omega arith) same k,
  IsSorted-frame f g xs same h,
)

module _ (db : ChanfixDb) (pos : ℕ) (xs ys : List ℕ) where
  abbrev owner : ℕ
  owner = (db.user pos).chan_offset

  -- When the list of the user's channel is well linked, the others on it are in order, and there are
  -- no more of them than `cfc_users_num` says, the sort returns 0, leaves the channel's list in order
  -- with the user at some place among the others, and keeps the fields of all users.
  pub sort_user-Placed :
      Holds npos (sorted_users (db.user pos).chan_offset db) (xs ++ pos ∷ ys)
      → IsSorted (score_of db) (xs ++ ys)
      → length (xs ++ ys) ≤ (db.chan (db.user pos).chan_offset).users_num
      → ((sort_user pos db).0 ≡ done tt)
        × Placed (sort_user pos db).1 (db.user pos).chan_offset pos (xs ++ ys)
        × ((sort_user pos db).1.user ≡ db.user)
  unfolding sort_user
  sort_user-Placed h o enough =
      let (e, us, vs, i, j, placed, order) =
        sort_list-Sorts npos (suc (db.chan owner).users_num) (score_of db) pos xs ys
          (sorted_users owner db) h o (omega arith) in
      rw (i, sort_user) (refl, (us, vs, j, (rw (eq→== owner owner refl) placed, order)), refl)

module _ (calls : Platform) (db : ChanfixDb) (pos : ℕ) (xs ys : List ℕ)
    (fresh : db.region.size ≡ db.region.data_size) where
  abbrev rolled : ChanfixDb
  rolled = write_user pos (roll_user (db.user pos)) db

  -- What one step leaves behind.
  abbrev pub Rolled : ChanfixDb → Type 0
  Rolled r =
      (r.user ≡ update db.user pos (roll_user (db.user pos)))
      × (((roll_user (db.user pos)).tot_score ≢ 0)
            × Placed r (db.user pos).chan_offset pos (xs ++ ys)
          ⊎ ((roll_user (db.user pos)).tot_score ≡ 0)
            × InOrder r (db.user pos).chan_offset (xs ++ ys))
