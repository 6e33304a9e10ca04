-- ===== src/Table/Remove.antt =====
-- The lists of a hash table when a record is removed.
use efnet_services.Common.{
  ℕ, ◌≡◌, refl, sym, ap, ◌∙◌, subst, ◌≢◌, inl, inr, ◌≤◌, ◌<◌, List, ◌∷◌, ◌++◌, ◌==◌, if◌then◌else◌,
  length, length-append, All, All-zip, All-remove, Avoids, In, In-remove, Distinct-middle,
  sum_upto-change, Bool-cases, eq→==, ne→==, ==→eq, ==_false, arith,
}
use efnet_services.Links.Segment.{Segment-Avoids}
use efnet_services.Links.Insert.{Lists, del_from_list-Lists, del_from_list-Segment}
use efnet_services.Run.{npos}
use efnet_services.Table.{Table, bucket_of, home, all_of, remove_record}
use efnet_services.Table.Index.{Index, chains-apart}

-- The chains with other records in bucket `s`.
abbrev pub put_at : (ℕ → List ℕ) → ℕ → List ℕ → ℕ → List ℕ
put_at chain s bs hv = if hv == s then bs else chain hv

module _ (nil : ℕ) where
  module _ (t : Table) (pos : ℕ) (xs ys us vs : List ℕ) (chain : ℕ → List ℕ)
      (index : Index nil t (xs ++ pos ∷ ys) chain)
      (here : chain (home t pos) ≡ us ++ pos ∷ vs) where
    abbrev own_slot : ℕ
    own_slot = home t pos

    abbrev left : Table
    left = remove_record nil pos t

    own_list : Lists nil (bucket_of own_slot t) (us ++ pos ∷ vs)
    own_list = subst (Lists nil (bucket_of own_slot t)) here (index.bucket own_slot)

    unlink_bucket : (hv : ℕ) → Lists nil (bucket_of hv left) (put_at chain own_slot (us ++ vs) hv)
    unfolding remove_record
    unlink_bucket hv = elim (Bool-cases (hv == own_slot)) [
      | inl y ↦
          let e = ==→eq hv own_slot y in
          subst (λ k. Lists nil (bucket_of k left) (put_at chain own_slot (us ++ vs) k)) (sym e)
            (rw (eq→== own_slot own_slot refl)
              (del_from_list-Lists nil pos us vs (bucket_of own_slot t) own_list))
      | inr n ↦
          let b = index.bucket hv in
          rw n (record {
            starts = b.starts;
            linked =
                del_from_list-Segment nil pos nil nil us vs (chain hv) (bucket_of own_slot t)
                  own_list (Segment-Avoids nil t.hash_links nil nil (chain hv) b.linked)
                  (subst (All (λ z. Avoids z (chain hv))) here (
                    chains-apart nil t (xs ++ pos ∷ ys) chain index hv own_slot
                      (==_false hv own_slot n)))
                  b.linked;
            distinct = b.distinct;
          })
    ]

    unlink_home : (hv : ℕ) → All (λ c. home t c ≡ hv) (put_at chain own_slot (us ++ vs) hv)
    unlink_home hv = elim (Bool-cases (hv == own_slot)) [
      | inl y ↦ rw y (
          All-remove (λ c. home t c ≡ hv) pos us vs
            (subst (All (λ c. home t c ≡ hv)) (ap chain (==→eq hv own_slot y) ∙ here)
              (index.at_home hv)))
      | inr n ↦ rw n (index.at_home hv)
    ]

    unlink_cover : All (λ c. In c (put_at chain own_slot (us ++ vs) (home t c))) (xs ++ ys)
    unlink_cover =
        All-zip (λ c. pos ≢ c) (λ c. In c (chain (home t c)))
          (λ c. In c (put_at chain own_slot (us ++ vs) (home t c))) (xs ++ ys)
          (λ c n i. still c (home t c) n i) (Distinct-middle pos xs ys index.all.distinct)
          (All-remove (λ c. In c (chain (home t c))) pos xs ys index.cover)
      where
        still : (c hv : ℕ) → pos ≢ c → In c (chain hv) → In c (put_at chain own_slot (us ++ vs) hv)
        still c hv n i = elim (Bool-cases (hv == own_slot)) [
          | inl y ↦ rw y (
              In-remove c pos us vs (λ e. n (sym e))
                (subst (In c) (ap chain (==→eq hv own_slot y) ∙ here) i))
          | inr k ↦ rw k i
        ]

    -- When the index is well-formed, the hash table is not empty and the number of records is a
    -- u_int, an unlinked record is gone from the list of all and from its bucket, the other buckets
    -- stay as they are, and the index is well-formed again.
    pub remove_record-Index :
        0 < t.slots
        → t.num ≤ npos
        → Index nil (remove_record nil pos t) (xs ++ ys) (put_at chain (home t pos) (us ++ vs))
    unfolding remove_record
    remove_record-Index positive small = record {
      all = del_from_list-Lists nil pos xs ys (all_of t) index.all;
      bucket = unlink_bucket;
      at_home = unlink_home;
      cover = unlink_cover;
      counted = omega (
        arith,
        index.counted,
        sum_upto-change t.slots own_slot (λ hv. length (chain hv))
            (λ hv. length (put_at chain own_slot (us ++ vs) hv)) (omega arith)
            (λ j n. rw (ne→== j own_slot n) refl),
        own,
        ap length here,
        length-append us vs,
        length-append us (pos ∷ vs),
      );
    }
      where
        own : length (put_at chain own_slot (us ++ vs) own_slot) ≡ length (us ++ vs)
        own = rw (eq→== own_slot own_slot refl) refl
