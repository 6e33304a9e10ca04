-- ===== src/Table/Index.antt =====
-- The lists of a hash table: that of all records, and one for each bucket.
use efnet_services.Common.{
  ℕ, suc, ◌≡◌, refl, sym, ap, ◌∙◌, subst, ◌≢◌, inl, inr, ◌<◌, ◌%◌, List, [], ◌∷◌, ◌==◌,
  if◌then◌else◌, length, All, All-map, All-zip, Avoids, In, sum_upto, sum_upto-change, Bool-cases,
  eq→==, ne→==, ==→eq, ==_false, arith,
}
use efnet_services.Links.Segment.{Segment-Avoids}
use efnet_services.Links.Insert.{Lists, add_to_list-Lists, add_to_list-Segment}
use efnet_services.Run.{npos}
use efnet_services.Table.{Table, all_of, bucket_of, home, add_record}

-- The chains with a record more in bucket `s`.
abbrev pub add_at : (ℕ → List ℕ) → ℕ → ℕ → ℕ → List ℕ
add_at chain s pos hv = if hv == s then pos ∷ chain hv else chain hv

module _ (nil : ℕ) where
  -- `cs` are the records of the table and `chain hv` those of bucket `hv`: the lists are linked well,
  -- a record stands in the bucket of its hash and in no other, each record stands in one, and `num`
  -- counts those of all buckets.
  pub record Index (t : Table) (cs : List ℕ) (chain : ℕ → List ℕ) : Type 0 where
    pub all : Lists nil (all_of t) cs
    pub bucket : (hv : ℕ) → Lists nil (bucket_of hv t) (chain hv)
    pub at_home : (hv : ℕ) → All (λ c. home t c ≡ hv) (chain hv)
    pub cover : All (λ c. In c (chain (home t c))) cs
    pub counted : t.num ≡ sum_upto t.slots (λ hv. length (chain hv))

  -- A record of one bucket is none of another.
  at_home-Avoids :
      (t : Table) (hv k : ℕ) (bs : List ℕ) (c : ℕ)
      → hv ≢ k
      → home t c ≡ k
      → All (λ z. home t z ≡ hv) bs
      → Avoids c bs
  at_home-Avoids t hv k [] c n e h = tt
  at_home-Avoids t hv k (b ∷ bs) c n e (i, h) =
      (λ j. n (sym i ∙ ap (home t) (sym j) ∙ e), at_home-Avoids t hv k bs c n e h)

  module _ (t : Table) (cs : List ℕ) (chain : ℕ → List ℕ) (index : Index t cs chain) where
    -- The chains of two buckets have no record in common.
    pub chains-apart : (hv k : ℕ) → hv ≢ k → All (λ z. Avoids z (chain hv)) (chain k)
    chains-apart hv k n =
        All-map (λ z. home t z ≡ k) (λ z. Avoids z (chain hv)) (chain k)
          (λ z e. at_home-Avoids t hv k (chain hv) z n e (index.at_home hv)) (index.at_home k)

  module _ (t : Table) (cs : List ℕ) (chain : ℕ → List ℕ) (index : Index t cs chain) (pos hashv : ℕ)
      (proper : pos ≢ nil) (new : Avoids pos cs)
      (new_chain : (hv : ℕ) → Avoids pos (chain hv)) where
    abbrev slot : ℕ
    slot = hashv % t.slots

    abbrev filled : Table
    filled = add_record nil pos hashv t

    fill_bucket : (hv : ℕ) → Lists nil (bucket_of hv filled) (add_at chain slot pos hv)
    unfolding add_record
    fill_bucket hv = elim (Bool-cases (hv == slot)) [
      | inl y ↦
          let e = ==→eq hv slot y in
          subst (λ k. Lists nil (bucket_of k filled) (add_at chain slot pos k)) (sym e)
            (rw (eq→== slot slot refl) (
              add_to_list-Lists nil pos (chain slot) (bucket_of slot t) proper (new_chain slot)
                (index.bucket slot)))
      | inr n ↦
          let b = index.bucket hv in
          rw n (record {
            starts = b.starts;
            linked =
                add_to_list-Segment nil pos nil nil (chain slot) (chain hv) (bucket_of slot t)
                  (index.bucket slot) (Segment-Avoids nil t.hash_links nil nil (chain hv) b.linked)
                  (new_chain hv, chains-apart t cs chain index hv slot (==_false hv slot n))
                  b.linked;
            distinct = b.distinct;
          })
    ]

    home_new : home filled pos ≡ slot
    unfolding add_record
    home_new = rw (eq→== pos pos refl) refl

    home_old : (c : ℕ) → pos ≢ c → home filled c ≡ home t c
    unfolding add_record
    home_old c n = rw (ne→== c pos (λ e. n (sym e))) refl

    fill_home : (hv : ℕ) → All (λ c. home filled c ≡ hv) (add_at chain slot pos hv)
    fill_home hv =
        let old =
          All-zip (λ c. pos ≢ c) (λ c. home t c ≡ hv) (λ c. home filled c ≡ hv) (chain hv)
            (λ c n e. home_old c n ∙ e) (new_chain hv) (index.at_home hv) in
        elim (Bool-cases (hv == slot)) [
          | inl y ↦ rw y (home_new ∙ sym (==→eq hv slot y), old)
          | inr n ↦ rw n old
        ]

    fill_cover : All (λ c. In c (add_at chain slot pos (home filled c))) (pos ∷ cs)
    fill_cover = (
      rw home_new (rw (eq→== slot slot refl) (inl refl)),
      All-zip (λ c. pos ≢ c) (λ c. In c (chain (home t c)))
          (λ c. In c (add_at chain slot pos (home filled c))) cs
          (λ c n i. rw (home_old c n) (wider c (home t c) i)) new index.cover,
    )
      where
        wider : (c hv : ℕ) → In c (chain hv) → In c (add_at chain slot pos hv)
        wider c hv i = elim (Bool-cases (hv == slot)) [ inl y ↦ rw y (inr i) | inr n ↦ rw n i ]

    -- When the index is well-formed, the hash table is not empty and the number of records is below
    -- the largest u_int, a record at a new position becomes the first of the list of all and of its
    -- bucket, the other buckets stay as they are, and the index is well-formed again.
    pub add_record-Index :
        0 < t.slots
        → t.num < npos
        → Index (add_record nil pos hashv t) (pos ∷ cs) (add_at chain (hashv % t.slots) pos)
    unfolding add_record
    add_record-Index positive room = record {
      all = add_to_list-Lists nil pos cs (all_of t) proper new index.all;
      bucket = fill_bucket;
      at_home = fill_home;
      cover = fill_cover;
      counted = omega (
        arith,
        index.counted,
        sum_upto-change t.slots slot (λ hv. length (chain hv))
            (λ hv. length (add_at chain slot pos hv)) (omega arith)
            (λ j n. rw (ne→== j slot n) refl),
        own,
      );
    }
      where
        own : length (add_at chain slot pos slot) ≡ suc (length (chain slot))
        own = rw (eq→== slot slot refl) refl
