-- ===== src/Chanfix/Seen.antt =====
-- The count of a user at a check, and the order of the channel's users after it.
use efnet_services.Common.{
  ℕ, ◌≡◌, refl, sym, ap, ◌∙◌, subst, ◌≢◌, ◌≤◌, List, ◌∷◌, ◌++◌, ◌==◌, length, All-map,
  Distinct-middle, Bool-cases, inl, inr, update_ne, update_self, eq→==, ne→==, ◌%◌, ◌+◌,
}
use efnet_services.Run.{done, npos}
use efnet_services.Region
use efnet_services.ChanfixDb.Store.{ChanfixDb, ChanUser, Platform, check, sorted_users, write_user}
use efnet_services.ChanfixDb.Sorted.Place.{Holds}
use efnet_services.ChanfixDb.Sorted.Order.{IsSorted, IsSorted-remove}
use efnet_services.ChanfixDb.User.{sort_user, chanuser_sort}
use efnet_services.ChanfixDb.User.Sort.{score_of, Placed, IsSorted-frame, sort_user-Placed}
use efnet_services.Chanfix.Check.{seen, seen_user}

seen-chan_offset : (now : ℕ) (u : ChanUser) → (seen now u).chan_offset ≡ u.chan_offset
unfolding seen
seen-chan_offset now u = elim (Bool-cases (u.last_seen == now)) [
  | inl y ↦ rw y refl
  | inr n ↦ rw n refl
]

-- A second time in the same check counts nothing.
seen-seen : (now : ℕ) (u : ChanUser) → seen now (seen now u) ≡ seen now u
unfolding seen
seen-seen now u = elim (Bool-cases (u.last_seen == now)) [
  | inl y ↦ rw (y, y) refl
  | inr n ↦ rw n (rw (eq→== now now refl) refl)
]

-- The record of a user that the check has not seen has the time of the check, a total that is one
-- higher, a first score that is one higher, the other scores as they were and all else as it was. That
-- of a user that it has seen is as it was.
abbrev pub CountedOnce : ℕ → ChanUser → ChanUser → Type 0
CountedOnce now u r =
    (u.last_seen ≡ now → r ≡ u)
    × (u.last_seen ≢ now
        → (s : ℕ) (older : List ℕ) → u.scores ≡ s ∷ older
        → r ≡ record u {
          last_seen = now;
          tot_score = (u.tot_score + 1) % 0x1_0000_0000;
          scores = (s + 1) % 0x1_0000 ∷ older;
        })

seen-CountedOnce : (now : ℕ) (u : ChanUser) → CountedOnce now u (seen now u)
unfolding seen
seen-CountedOnce now u =
    (λ e. rw (eq→== u.last_seen now e) refl, λ n s older e. rw (ne→== u.last_seen now n, e) refl)

module _ (calls : Platform) (now : ℕ) (db : ChanfixDb) (pos : ℕ) (xs ys : List ℕ) where
  abbrev touched : ChanfixDb
  touched = write_user pos (seen now (db.user pos)) db

  check-touched : db.region.size ≡ db.region.data_size → check calls touched ≡ (done tt, touched)
  unfolding check Region.check
  check-touched fresh = rw (eq→== db.region.size db.region.data_size fresh) refl

  same_owner : (touched.user pos).chan_offset ≡ (db.user pos).chan_offset
  same_owner =
      ap (λ u. u.chan_offset) (update_self db.user pos (seen now (db.user pos)))
      ∙ seen-chan_offset now (db.user pos)

  sorts :
      db.region.size ≡ db.region.data_size → chanuser_sort calls pos touched ≡ sort_user pos touched
  unfolding chanuser_sort
  sorts fresh = rw (check-touched fresh) refl

  seen_user-sorts :
      db.region.size ≡ db.region.data_size → seen_user calls now pos db ≡ (sort_user pos touched).1
  unfolding seen_user
  seen_user-sorts fresh = ap (λ r. r.1) (sorts fresh)

  abbrev pub Counted : ChanfixDb → Type 0
  Counted r =
      CountedOnce now (db.user pos) (r.user pos)
      × ((p : ℕ) → p ≢ pos → r.user p ≡ db.user p)
      × (seen now (r.user pos) ≡ r.user pos)
      × Placed r (db.user pos).chan_offset pos (xs ++ ys)

  -- In a file whose mapping is up to date, for a user of a channel whose list is well linked and in
  -- order, with no more other users than `cfc_users_num` says, the count of a check changes the record
  -- of that user only: its total and its first score go up by one and it has the time of the check,
  -- and when it had that time already it stays as it was, so that it is counted once however often it
  -- is seen. The list is left in order with the user at a place that fits its new total.
  pub seen_user-Counted :
      db.region.size ≡ db.region.data_size
      → Holds npos (sorted_users (db.user pos).chan_offset db) (xs ++ pos ∷ ys)
      → IsSorted (score_of db) (xs ++ pos ∷ ys)
      → length (xs ++ ys) ≤ (db.chan (db.user pos).chan_offset).users_num
      → Counted (seen_user calls now pos db)
  seen_user-Counted fresh h all enough =
      let order =
        IsSorted-frame (score_of db) (score_of touched) (xs ++ ys)
          (All-map (λ p. pos ≢ p) (λ p. score_of touched p ≡ score_of db p) (xs ++ ys)
            (λ p n.
              ap (λ u. u.tot_score)
                (update_ne db.user pos (seen now (db.user pos)) p (λ e. n (sym e))))
            (Distinct-middle pos xs ys h.distinct))
          (IsSorted-remove (score_of db) pos xs ys all) in
      let list = subst (λ k. Holds npos (sorted_users k db) (xs ++ pos ∷ ys)) (sym same_owner) h in
      let (_, placed, e) =
        sort_user-Placed touched pos xs ys list order
          (subst (λ k. length (xs ++ ys) ≤ (db.chan k).users_num) (sym same_owner) enough) in
      let own = ap (λ g. g pos) e ∙ update_self db.user pos (seen now (db.user pos)) in
      subst Counted (sym (seen_user-sorts fresh)) (
        subst (CountedOnce now (db.user pos)) (sym own) (seen-CountedOnce now (db.user pos)),
        λ p n. ap (λ g. g p) e ∙ update_ne db.user pos (seen now (db.user pos)) p n,
        ap (seen now) own ∙ seen-seen now (db.user pos) ∙ sym own,
        subst (λ k. Placed (sort_user pos touched).1 k pos (xs ++ ys)) same_owner placed,
      )
