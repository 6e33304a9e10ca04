-- ===== src/Clients/Add.antt =====
-- siclient_add of daemon/hash.c below a server that is there.
use efnet_services.Common.{
  ℕ, ◌≡◌, refl, sym, subst, ◌≢◌, ◌⊎◌, inl, inr, ◌<◌, ◌%◌, [], ◌∷◌, if◌then◌else◌, Bool, true,
  Avoids, In, In-All, All-In, update, Bool-cases, eq→==, ne→==, arith,
}
use efnet_services.Run.{npos}
use efnet_services.Links.{Links, add_to_list}
use efnet_services.Links.Insert.{Lists, add_to_list-Lists}
use efnet_services.Links.Family.{
  Family, Replaced, add_to_list-Family, added-In, added-new, added-keeps,
}
use efnet_services.Network.Joined.{
  Side, dec_position, dec_bool, dec_side, update-Replaced, put_side, put_side-Replaced,
}
use efnet_services.Clients.{Clients, World}
use efnet_services.Clients.Lists.{
  is_client, children, everyone, opers, bucket, parent_for, hash_add, siclient_add,
  sihash_compute_client, starts_with_star, client_hashsize,
}
use efnet_services.Clients.Formed.{
  View, Formed, first_all, first_kid, HasChildren, put_bool, put_bool-Replaced,
  set_everyone-Replaced, set_children-Replaced, set_children-links,
}

module _ (to_lower : ℕ → ℕ) (rank : ℕ → ℕ) (from c now : ℕ) (w : World) (v : View) where
  abbrev p : Clients
  p = w.people

  abbrev over : ℕ
  over = parent_for from p

  abbrev cli : Bool
  cli = is_client p c

  abbrev slot : ℕ
  slot =
      if starts_with_star (p.name c)
      then client_hashsize
      else sihash_compute_client to_lower (p.name c) % client_hashsize

  abbrev q : Clients
  q = (siclient_add to_lower from c now w).people

  -- The lists with the new record on them.
  abbrev pub with_client : View
  with_client = record {
    all = put_bool v.all cli (c ∷ v.all cli);
    kids = put_side v.kids (over, cli) (c ∷ v.kids (over, cli));
    bucket = update v.bucket slot (c ∷ v.bucket slot);
    opers = if p.is_oper c then c ∷ v.opers else v.opers;
  }

  module _ (formed : Formed rank [] p v) (proper : c ≢ 0) (fresh : (b : Bool) → Avoids c (v.all b))
      (below : over ≢ 0) (there : HasChildren p v over) (higher : rank over < rank c) where
    not_c : (b : Bool) (x : ℕ) → In x (v.all b) → x ≢ c
    not_c b x i e = All-In (λ z. c ≢ z) x (v.all b) (fresh b) i (sym e)

    fresh_kid : (s : Side) → Avoids c (v.kids s)
    fresh_kid s = In-All (λ z. c ≢ z) (v.kids s) (λ x i e. not_c s.1 x (formed.kid s x i).1 (sym e))

    fresh_hash : (k : ℕ) → Avoids c (v.bucket k)
    fresh_hash k =
        In-All (λ z. c ≢ z) (v.bucket k)
          (λ x i e. not_c (is_client p x) x (formed.hashed k x i).2 (sym e))

    fresh_oper : Avoids c v.opers
    fresh_oper =
        In-All (λ z. c ≢ z) v.opers (λ x i e. not_c (is_client p x) x (formed.opered x i).1 (sym e))

    in_all : Replaced 0 dec_bool cli (c ∷ v.all cli) v.all with_client.all
    in_all = put_bool-Replaced v.all cli (c ∷ v.all cli)

    in_kids : Replaced 0 dec_side (over, cli) (c ∷ v.kids (over, cli)) v.kids with_client.kids
    in_kids = put_side-Replaced v.kids (over, cli) (c ∷ v.kids (over, cli))

    in_bucket : Replaced 0 dec_position slot (c ∷ v.bucket slot) v.bucket with_client.bucket
    in_bucket = update-Replaced v.bucket slot (c ∷ v.bucket slot)

    keeps_all : (b : Bool) (x : ℕ) → In x (v.all b) → In x (with_client.all b)
    keeps_all b x i =
        added-keeps 0 dec_bool (first_all p) (first_all p) p.a_links v.all with_client.all cli
          formed.all c x b in_all i

    new_all : In c (with_client.all cli)
    new_all =
        added-new 0 dec_bool (first_all p) (first_all p) p.a_links v.all with_client.all cli
          formed.all c in_all

    keeps_oper : (x : ℕ) → In x v.opers → In x with_client.opers
    keeps_oper x i = elim (Bool-cases (p.is_oper c)) [ inl y ↦ rw y (inr i) | inr n ↦ rw n i ]

    placed :
        (b : Bool) (x : ℕ)
        → In x (with_client.all b)
        → (is_client q x ≡ b)
          × (In x [] ⊎ In x (with_client.bucket (q.hv x)))
          × (q.parent x ≢ 0 → In x (with_client.kids (q.parent x, b)))
          × (q.is_oper x ≡ true → In x with_client.opers)
    unfolding siclient_add hash_add
    placed b x i =
        elim (added-In 0 dec_bool (first_all p) (first_all p) p.a_links v.all with_client.all cli
          formed.all c x b in_all i) [
            | inl (e, f) ↦
                rw (e, f, eq→== c c refl)
                  (
                    refl,
                    inr (
                        added-new 0 dec_position p.buckets p.buckets p.h_links v.bucket
                          with_client.bucket slot formed.hash c in_bucket),
                    λ n.
                        added-new 0 dec_side (first_kid p) (first_kid p) p.cs_links v.kids
                          with_client.kids (over, cli) formed.kids c in_kids,
                    λ o. rw o (inl refl),
                  )
            | inr h ↦
                let (k, d, g, o) = formed.placed b x h in
                rw (ne→== x c (not_c b x h)) (
                  k,
                  elim d [
                    | inl z ↦ absurd z
                    | inr j ↦ inr (
                        added-keeps 0 dec_position p.buckets p.buckets p.h_links v.bucket
                          with_client.bucket slot formed.hash c x (p.hv x) in_bucket j)
                  ],
                  λ n.
                      added-keeps 0 dec_side (first_kid p) (first_kid p) p.cs_links v.kids
                        with_client.kids (over, cli) formed.kids c x (p.parent x, b) in_kids (g n),
                  λ y. keeps_oper x (o y),
                )
          ]

    stays_parent : (s : ℕ) → HasChildren p v s → HasChildren q with_client s
    unfolding siclient_add hash_add
    stays_parent s (i, k) = (
      keeps_all (is_client p s) s i,
      elim k [ inl e ↦ inl e | inr z ↦ inr (rw (ne→== s c (not_c (is_client p s) s i)) z) ],
    )

    kid :
        (s : Side) (x : ℕ)
        → In x (with_client.kids s)
        → (q.parent x ≡ s.0)
          × In x (with_client.all s.1)
          × HasChildren q with_client s.0
          × (rank s.0 < rank x)
    unfolding siclient_add hash_add
    kid s x i =
        elim (added-In 0 dec_side (first_kid p) (first_kid p) p.cs_links v.kids with_client.kids
          (over, cli) formed.kids c x s in_kids i) [
            | inl (e, f) ↦
                let wide = stays_parent over there in
                rw (e, f, eq→== c c refl) (refl, new_all, wide, higher)
            | inr h ↦
                let (a, b, d, r) = formed.kid s x h in
                let old = stays_parent s.0 d in
                rw (ne→== x c (not_c s.1 x b)) (a, keeps_all s.1 x b, old, r)
          ]

    hashed :
        (k x : ℕ)
        → In x (with_client.bucket k)
        → (q.hv x ≡ k) × Avoids x [] × In x (with_client.all (is_client q x))
    unfolding siclient_add hash_add
    hashed k x i =
        elim (added-In 0 dec_position p.buckets p.buckets p.h_links v.bucket with_client.bucket slot
          formed.hash c x k in_bucket i) [
            | inl (e, f) ↦ rw (e, f, eq→== c c refl) (refl, tt, new_all)
            | inr h ↦
                let (a, d, b) = formed.hashed k x h in
                rw (ne→== x c (not_c (is_client p x) x b)) (a, tt, keeps_all (is_client p x) x b)
          ]

    opered :
        (x : ℕ)
        → In x with_client.opers
        → (q.is_oper x ≡ true) × In x (with_client.all (is_client q x))
    unfolding siclient_add hash_add
    opered x i = elim (Bool-cases (p.is_oper c)) [
      | inl y ↦ new y (subst (λ b. In x (if b then c ∷ v.opers else v.opers)) y i)
      | inr n ↦ old (subst (λ b. In x (if b then c ∷ v.opers else v.opers)) n i)
    ]
      where
        old : In x v.opers → (p.is_oper x ≡ true) × In x (with_client.all (is_client p x))
        old h = let (a, b) = formed.opered x h in (a, keeps_all (is_client p x) x b)

        new :
            p.is_oper c ≡ true
            → In x (c ∷ v.opers)
            → (p.is_oper x ≡ true) × In x (with_client.all (is_client p x))
        new y (inl e) = rw e (y, new_all)
        new y (inr h) = old h

    oper_list : Lists 0 (opers q) with_client.opers
    unfolding siclient_add hash_add
    oper_list = elim (Bool-cases (p.is_oper c)) [
      | inl y ↦ rw y (add_to_list-Lists 0 c v.opers (opers p) proper fresh_oper formed.oper)
      | inr n ↦ rw n formed.oper
    ]

    -- When no counter is full, a record that is on no list, added below one of lower rank that may have
    -- children, is on the list of its parent, on the list of
    -- all, in the bucket of its name and, when it is an oper, on SIOpers; nothing else changes and the
    -- lists are well-formed again.
    pub siclient_add-Formed :
        p.numclients < npos
        → p.numgservers < npos
        → p.numopers < npos
        → Formed rank [] (siclient_add to_lower from c now w).people with_client
    unfolding siclient_add hash_add
    siclient_add-Formed room_clients room_servers room_opers = record {
      all =
          add_to_list-Family 0 dec_bool (first_all p) (first_all q) p.a_links v.all with_client.all
            cli formed.all c proper fresh
            (set_everyone-Replaced p cli (add_to_list 0 c (everyone cli p))) in_all;
      kids =
          subst (λ (l : Links). Family 0 dec_side (first_kid q) l with_client.kids)
            (sym (set_children-links p cli over (add_to_list 0 c (children cli over p)) below))
            (add_to_list-Family 0 dec_side (first_kid p) (first_kid q) p.cs_links v.kids
              with_client.kids (over, cli) formed.kids c proper fresh_kid
              (set_children-Replaced p cli over (add_to_list 0 c (children cli over p)) below)
              in_kids);
      hash =
          add_to_list-Family 0 dec_position p.buckets q.buckets p.h_links v.bucket
            with_client.bucket slot formed.hash c proper fresh_hash
            (update-Replaced p.buckets slot (add_to_list 0 c (bucket slot p)).first) in_bucket;
      oper = oper_list;
      placed = placed;
      kid = kid;
      hashed = hashed;
      opered = opered;
      numclients = elim (Bool-cases cli) [
        | inl y ↦ rw y (omega (arith, formed.numclients.0), omega arith)
        | inr n ↦ rw n formed.numclients
      ];
      numgservers = elim (Bool-cases cli) [
        | inl y ↦ rw y formed.numgservers
        | inr n ↦ rw n (omega (arith, formed.numgservers.0), omega arith)
      ];
      numopers = elim (Bool-cases (p.is_oper c)) [
        | inl y ↦ rw y (omega (arith, formed.numopers.0), omega arith)
        | inr n ↦ rw n formed.numopers
      ];
    }
