-- ===== src/Links/Family.antt =====
-- Lists that share one kind of record: each record of the family is on one of the lists at most, and
-- the heads are kept by key. The clients' channels, the users and the bans of the channels and the
-- hash buckets of daemon/hash.c are kept like this.
use efnet_services.Common.{
  ℕ, ◌≤◌, length, length-append, arith, ◌≡◌, refl, sym, ap, ◌∙◌, subst, ◌≢◌, ◌⊎◌, inl, inr, List,
  [], ◌∷◌, ◌++◌, All, All-map, All-remove, Avoids, Distinct, Distinct-middle, In, In-remove, All-In,
}
use efnet_services.Links.{Links, Chain, add_to_list, del_from_list}
use efnet_services.Links.Segment.{Segment, Segment-Avoids}
use efnet_services.Links.Insert.{
  Lists, add_to_list-Lists, add_to_list-Segment, del_from_list-Lists, del_from_list-Segment,
}

pub In-middle : (x : ℕ) (us vs : List ℕ) → In x (us ++ x ∷ vs)
In-middle x [] vs = inl refl
In-middle x (u ∷ us) vs = inr (In-middle x us vs)

pub In-wider : (x y : ℕ) (us vs : List ℕ) → In x (us ++ vs) → In x (us ++ y ∷ vs)
In-wider x y [] vs i = inr i
In-wider x y (u ∷ us) vs (inl e) = inl e
In-wider x y (u ∷ us) vs (inr i) = inr (In-wider x y us vs i)

pub In-left : (x : ℕ) (xs ys : List ℕ) → In x xs → In x (xs ++ ys)
In-left x (z ∷ xs) ys (inl e) = inl e
In-left x (z ∷ xs) ys (inr i) = inr (In-left x xs ys i)
In-left x [] ys i = absurd i

pub In-right : (x : ℕ) (xs ys : List ℕ) → In x ys → In x (xs ++ ys)
In-right x [] ys i = i
In-right x (z ∷ xs) ys i = inr (In-right x xs ys i)

-- A record that is on a list splits it.
pub In-split : (x : ℕ) (xs : List ℕ) → In x xs → (us : List ℕ) × (vs : List ℕ) × (xs ≡ us ++ x ∷ vs)
In-split x [] i = absurd i
In-split x (y ∷ xs) (inl e) = ([], xs, ap (λ k. k ∷ xs) (sym e))
In-split x (y ∷ xs) (inr i) = let (us, vs, e) = In-split x xs i in (y ∷ us, vs, ap (λ k. y ∷ k) e)

-- A list without repetition is no longer than one that has its items.
pub Distinct-length :
    (xs ys : List ℕ) → Distinct xs → ((z : ℕ) → In z xs → In z ys) → length xs ≤ length ys
Distinct-length [] ys d f = omega arith
Distinct-length (x ∷ xs) ys (a, d) f =
    let (us, vs, e) = In-split x ys (f x (inl refl)) in
    let rest = Distinct-length xs (us ++ vs) d (λ z i.
      In-remove z x us vs (λ k. All-In (λ y. x ≢ y) z xs a i (sym k))
        (subst (In z) e (f z (inr i)))) in
    omega (arith, rest, ap length e, length-append us vs, length-append us (x ∷ vs))

In-Avoids : (x : ℕ) (zs xs : List ℕ) → All (λ z. Avoids z zs) xs → In x zs → In x xs → ⊥
In-Avoids x zs xs a i j = All-In (λ z. x ≢ z) x zs (All-In (λ z. Avoids z zs) x xs a j) i refl

pub All-flip : (xs ys : List ℕ) → All (λ z. Avoids z ys) xs → All (λ z. Avoids z xs) ys
All-flip xs [] a = tt
All-flip xs (y ∷ ys) a = (
  All-map (λ z. Avoids z (y ∷ ys)) (λ z. y ≢ z) xs (λ z f e. f.0 (sym e)) a,
  All-flip xs ys (All-map (λ z. Avoids z (y ∷ ys)) (λ z. Avoids z ys) xs (λ z f. f.1) a),
)

module _ (nil : ℕ) {K : Type 0} (dec : (j k : K) → (j ≡ k) ⊎ (j ≢ k)) where
  pub record Family (first : K → ℕ) (l : Links) (chain : K → List ℕ) : Type 0 where
    pub lists : (k : K) → Lists nil (record { first = first k; links = l }) (chain k)
    pub apart : (j k : K) → j ≢ k → All (λ z. Avoids z (chain k)) (chain j)

  -- A function of the key with another value at one key.
  pub record Replaced {ℓ} {V : Type ℓ} (at_key : K) (v : V) (f g : K → V) : Type ℓ where
    pub new : g at_key ≡ v
    pub same : (k : K) → k ≢ at_key → g k ≡ f k

  module _ (first : K → ℕ) (l : Links) (chain : K → List ℕ) (family : Family first l chain) where
    -- No list holds the end.
    pub family-proper : (k : K) → Avoids nil (chain k)
    family-proper k = Segment-Avoids nil l nil nil (chain k) (family.lists k).linked

    pub family-one_key : (j k : K) (x : ℕ) → In x (chain j) → In x (chain k) → j ≡ k
    family-one_key j k x i h = elim (dec j k) [
      | inl e ↦ e
      | inr n ↦ absurd (In-Avoids x (chain k) (chain j) (family.apart j k n) h i)
    ]

  module _ (first other_first : K → ℕ) (l : Links) (chain other_chain : K → List ℕ) (at_key : K)
      (family : Family first l chain) where
    abbrev list_at : Chain
    list_at = record { first = first at_key; links = l }

    -- One list becomes another one, and the links of the others stay.
    replace-Family :
        (c : Chain) (bs : List ℕ)
        → Lists nil c bs
        → ((k : K) → k ≢ at_key → Segment nil c.links nil (chain k) nil)
        → ((k : K) → k ≢ at_key → All (λ z. Avoids z (chain k)) bs)
        → Replaced at_key c.first first other_first
        → Replaced at_key bs chain other_chain
        → Family other_first c.links other_chain
    replace-Family c bs lists_bs stays off heads bodies = record { lists = lists; apart = apart }
      where
        lists :
            (k : K) → Lists nil (record { first = other_first k; links = c.links }) (other_chain k)
        lists k = elim (dec k at_key) [
          | inl e ↦
              subst
                (λ (j : K).
                  Lists nil (record { first = other_first j; links = c.links }) (other_chain j))
                (sym e)
                (subst (Lists nil (record { first = other_first at_key; links = c.links }))
                  (sym bodies.new)
                  (record {
                    starts = heads.new ∙ lists_bs.starts;
                    linked = lists_bs.linked;
                    distinct = lists_bs.distinct;
                  }))
          | inr n ↦
              let old = family.lists k in
              subst (Lists nil (record { first = other_first k; links = c.links }))
                (sym (bodies.same k n))
                (record {
                  starts = heads.same k n ∙ old.starts;
                  linked = stays k n;
                  distinct = old.distinct;
                })
        ]

        flip : (k : K) → k ≢ at_key → All (λ z. Avoids z bs) (chain k)
        flip k n = All-flip bs (chain k) (off k n)

        apart : (j k : K) → j ≢ k → All (λ z. Avoids z (other_chain k)) (other_chain j)
        apart j k n = elim (dec j at_key) [
          | inl e ↦
              let m : k ≢ at_key = λ f. n (e ∙ sym f) in
              subst (λ bs. All (λ z. Avoids z (other_chain k)) bs)
                (sym (ap other_chain e ∙ bodies.new))
                (subst (λ zs. All (λ z. Avoids z zs) bs) (sym (bodies.same k m)) (off k m))
          | inr m ↦
              subst (λ bs. All (λ z. Avoids z (other_chain k)) bs) (sym (bodies.same j m))
                (elim (dec k at_key) [
                  | inl e ↦
                      subst (λ zs. All (λ z. Avoids z zs) (chain j))
                        (sym (ap other_chain e ∙ bodies.new)) (flip j m)
                  | inr o ↦
                      subst (λ zs. All (λ z. Avoids z zs) (chain j)) (sym (bodies.same k o))
                        (family.apart j k n)
                ])
        ]

    -- A new record becomes the first of one list, and the others stay as they are.
    pub add_to_list-Family :
        (x : ℕ)
        → x ≢ nil
        → ((k : K) → Avoids x (chain k))
        → Replaced at_key (add_to_list nil x list_at).first first other_first
        → Replaced at_key (x ∷ chain at_key) chain other_chain
        → Family other_first (add_to_list nil x list_at).links other_chain
    add_to_list-Family x proper fresh heads bodies =
        let off : (k : K) → k ≢ at_key → All (λ z. Avoids z (chain k)) (x ∷ chain at_key) =
          λ k n. (fresh k, family.apart at_key k (λ e. n (sym e))) in
        replace-Family (add_to_list nil x list_at) (x ∷ chain at_key)
          (add_to_list-Lists nil x (chain at_key) list_at proper (fresh at_key)
            (family.lists at_key))
          (λ k n.
            add_to_list-Segment nil x nil nil (chain at_key) (chain k) list_at (family.lists at_key)
              (family-proper first l chain family k) (off k n) (family.lists k).linked)
          off heads bodies

    -- A record leaves its list, and the others stay as they are.
    pub del_from_list-Family :
        (x : ℕ) (us vs : List ℕ)
        → chain at_key ≡ us ++ x ∷ vs
        → Replaced at_key (del_from_list nil x list_at).first first other_first
        → Replaced at_key (us ++ vs) chain other_chain
        → Family other_first (del_from_list nil x list_at).links other_chain
    del_from_list-Family x us vs here heads bodies =
        let own = subst (Lists nil list_at) here (family.lists at_key) in
        let off = λ (k : K) (n : k ≢ at_key).
          subst (All (λ z. Avoids z (chain k))) here (family.apart at_key k (λ e. n (sym e))) in
        replace-Family (del_from_list nil x list_at) (us ++ vs)
          (del_from_list-Lists nil x us vs list_at own)
          (λ k n.
            del_from_list-Segment nil x nil nil us vs (chain k) list_at own
              (family-proper first l chain family k) (off k n) (family.lists k).linked)
          (λ k n. All-remove (λ z. Avoids z (chain k)) x us vs (off k n)) heads bodies

    -- What is on the lists after a record was added, or was removed.
    pub added-In :
        (x z : ℕ) (k : K)
        → Replaced at_key (x ∷ chain at_key) chain other_chain
        → In z (other_chain k)
        → ((z ≡ x) × (k ≡ at_key)) ⊎ In z (chain k)
    added-In x z k bodies i = elim (dec k at_key) [
      | inr n ↦ inr (subst (In z) (bodies.same k n) i)
      | inl e ↦ split e (subst (In z) (ap other_chain e ∙ bodies.new) i)
    ]
      where
        split : k ≡ at_key → In z (x ∷ chain at_key) → ((z ≡ x) × (k ≡ at_key)) ⊎ In z (chain k)
        split e (inl f) = inl (f, e)
        split e (inr h) = inr (subst (λ j. In z (chain j)) (sym e) h)

    pub added-new :
        (x : ℕ) → Replaced at_key (x ∷ chain at_key) chain other_chain → In x (other_chain at_key)
    added-new x bodies = subst (In x) (sym bodies.new) (inl refl)

    pub added-keeps :
        (x z : ℕ) (k : K)
        → Replaced at_key (x ∷ chain at_key) chain other_chain
        → In z (chain k)
        → In z (other_chain k)
    added-keeps x z k bodies i = elim (dec k at_key) [
      | inr n ↦ subst (In z) (sym (bodies.same k n)) i
      | inl e ↦
          subst (In z) (sym (ap other_chain e ∙ bodies.new)) (inr (subst (λ j. In z (chain j)) e i))
    ]

    pub removed-In :
        (x z : ℕ) (us vs : List ℕ) (k : K)
        → chain at_key ≡ us ++ x ∷ vs
        → Replaced at_key (us ++ vs) chain other_chain
        → In z (other_chain k)
        → In z (chain k) × (z ≢ x)
    removed-In x z us vs k here bodies i = elim (dec k at_key) [
      | inr n ↦
          let h = subst (In z) (bodies.same k n) i in
          (
            h,
            λ e. n (
                family-one_key first l chain family k at_key x (subst (λ j. In j (chain k)) e h)
                  (subst (In x) (sym here) (In-middle x us vs))),
          )
      | inl e ↦
          let h = subst (In z) (ap other_chain e ∙ bodies.new) i in
          let d = subst Distinct here (family.lists at_key).distinct in
          (
            subst (In z) (sym (ap chain e ∙ here)) (In-wider z x us vs h),
            λ f. All-In (λ y. x ≢ y) z (us ++ vs) (Distinct-middle x us vs d) h (sym f),
          )
    ]

    pub removed-keeps :
        (x z : ℕ) (us vs : List ℕ) (k : K)
        → chain at_key ≡ us ++ x ∷ vs
        → Replaced at_key (us ++ vs) chain other_chain
        → z ≢ x
        → In z (chain k)
        → In z (other_chain k)
    removed-keeps x z us vs k here bodies n i = elim (dec k at_key) [
      | inr m ↦ subst (In z) (sym (bodies.same k m)) i
      | inl e ↦
          subst (In z) (sym (ap other_chain e ∙ bodies.new))
            (In-remove z x us vs n (subst (In z) (ap chain e ∙ here) i))
    ]
