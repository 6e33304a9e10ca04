-- ===== src/Clients/Unlink.antt =====
-- A record without children that siclient_free of daemon/hash.c takes off the lists.
use efnet_services.Common.{
  ℕ, ◌≡◌, sym, ap, ◌∙◌, subst, ◌≢◌, ◌⊎◌, inl, inr, ◌<◌, List, [], ◌∷◌, ◌++◌, if◌then◌else◌, Bool,
  true, false, length, length-append, Avoids, In, In-remove, All-In, Distinct, Distinct-middle,
  Bool-cases, arith,
}
use efnet_services.Run.{sub32}
use efnet_services.Links.{Links, del_from_list}
use efnet_services.Links.Insert.{Lists, del_from_list-Lists}
use efnet_services.Links.Family.{
  Family, Replaced, In-middle, In-wider, del_from_list-Family, removed-In, removed-keeps,
}
use efnet_services.Network.Joined.{Side, dec_bool, dec_side, Counts, put_side, put_side-Replaced}
use efnet_services.Clients.{Clients}
use efnet_services.Clients.Lists.{is_client, children, everyone, opers}
use efnet_services.Clients.Free.{unlink}
use efnet_services.Clients.Formed.{
  View, Formed, first_all, first_kid, HasChildren, put_bool, put_bool-Replaced,
  set_everyone-Replaced, set_children-Replaced, set_children-links,
}

module _ (rank : ℕ → ℕ) (dying : List ℕ) (p : Clients) (v : View) (c : ℕ) where
  module _ (cli : Bool) (formed : Formed rank (c ∷ dying) p v) (ks bs us vs os ts : List ℕ)
      (in_all : v.all cli ≡ ks ++ c ∷ bs) (in_kids : v.kids (p.parent c, cli) ≡ us ++ c ∷ vs)
      (in_opers : p.is_oper c ≡ true → v.opers ≡ os ++ c ∷ ts)
      (bare : (b : Bool) → v.kids (c, b) ≡ []) (below : p.parent c ≢ 0) where
    abbrev pub without : View
    without = record v {
      all = put_bool v.all cli (ks ++ bs);
      kids = put_side v.kids (p.parent c, cli) (us ++ vs);
      opers = if p.is_oper c then os ++ ts else v.opers;
    }

    abbrev q : Clients
    q = unlink cli c p

    off_all : Replaced 0 dec_bool cli (ks ++ bs) v.all without.all
    off_all = put_bool-Replaced v.all cli (ks ++ bs)

    off_kids : Replaced 0 dec_side (p.parent c, cli) (us ++ vs) v.kids without.kids
    off_kids = put_side-Replaced v.kids (p.parent c, cli) (us ++ vs)

    pub without-All : (b : Bool) (x : ℕ) → In x (without.all b) → In x (v.all b) × (x ≢ c)
    without-All b x i =
        removed-In 0 dec_bool (first_all p) (first_all p) p.a_links v.all without.all cli formed.all
          c x ks bs b in_all off_all i

    pub keeps_all : (b : Bool) (x : ℕ) → x ≢ c → In x (v.all b) → In x (without.all b)
    keeps_all b x n i =
        removed-keeps 0 dec_bool (first_all p) (first_all p) p.a_links v.all without.all cli
          formed.all c x ks bs b in_all off_all n i

    is_cli : is_client p c ≡ cli
    is_cli = (formed.placed cli c (subst (In c) (sym in_all) (In-middle c ks bs))).0

    placed :
        (b : Bool) (x : ℕ)
        → In x (without.all b)
        → (is_client q x ≡ b)
          × (In x dying ⊎ In x (without.bucket (q.hv x)))
          × (q.parent x ≢ 0 → In x (without.kids (q.parent x, b)))
          × (q.is_oper x ≡ true → In x without.opers)
    unfolding unlink
    placed b x i =
        let (h, n) = without-All b x i in
        let (k, d, g, o) = formed.placed b x h in
        (
          k,
          other n d,
          λ m.
              removed-keeps 0 dec_side (first_kid p) (first_kid p) p.cs_links v.kids without.kids
                (p.parent c, cli) formed.kids c x us vs (p.parent x, b) in_kids off_kids n (g m),
          λ y. keeps_oper n (o y),
        )
      where
        other :
            x ≢ c
            → In x (c ∷ dying) ⊎ In x (v.bucket (p.hv x))
            → In x dying ⊎ In x (v.bucket (p.hv x))
        other n (inl (inl e)) = absurd (n e)
        other n (inl (inr j)) = inl j
        other n (inr j) = inr j

        keeps_oper : x ≢ c → In x v.opers → In x without.opers
        keeps_oper n j = elim (Bool-cases (p.is_oper c)) [
          | inl y ↦ rw y (In-remove x c os ts n (subst (In x) (in_opers y) j))
          | inr m ↦ rw m j
        ]

    kid :
        (s : Side) (x : ℕ)
        → In x (without.kids s)
        → (q.parent x ≡ s.0)
          × In x (without.all s.1)
          × HasChildren q without s.0
          × (rank s.0 < rank x)
    unfolding unlink
    kid s x i =
        let (h, n) =
          removed-In 0 dec_side (first_kid p) (first_kid p) p.cs_links v.kids without.kids
            (p.parent c, cli) formed.kids c x us vs s in_kids off_kids i in
        let (a, b, d, r) = formed.kid s x h in
        (
          a,
          keeps_all s.1 x n b,
          (
            keeps_all (is_client p s.0) s.0
                (λ e. subst (In x) (ap (λ (k : ℕ). v.kids (k, s.1)) e ∙ bare s.1) h) d.0,
            d.1,
          ),
          r,
        )

    hashed :
        (k x : ℕ)
        → In x (without.bucket k)
        → (q.hv x ≡ k) × Avoids x dying × In x (without.all (is_client q x))
    unfolding unlink
    hashed k x i =
        let (a, d, b) = formed.hashed k x i in (a, d.1, keeps_all (is_client p x) x d.0 b)

    opered :
        (x : ℕ) → In x without.opers → (q.is_oper x ≡ true) × In x (without.all (is_client q x))
    unfolding unlink
    opered x i = elim (Bool-cases (p.is_oper c)) [
      | inl y ↦ gone y (subst (λ b. In x (if b then os ++ ts else v.opers)) y i)
      | inr n ↦
          let h = subst (λ b. In x (if b then os ++ ts else v.opers)) n i in
          let (a, b) = formed.opered x h in
          (a, keeps_all (is_client p x) x (λ e. clash (ap p.is_oper (sym e) ∙ a) n) b)
    ]
      where
        clash : p.is_oper c ≡ true → p.is_oper c ≡ false → ⊥
        clash e f = cc

        gone :
            p.is_oper c ≡ true
            → In x (os ++ ts)
            → (p.is_oper x ≡ true) × In x (without.all (is_client p x))
        gone y h =
            let (a, b) = formed.opered x (subst (In x) (sym (in_opers y)) (In-wider x c os ts h)) in
            (
              a,
              keeps_all (is_client p x) x
                  (λ e.
                    All-In (λ z. c ≢ z) x (os ++ ts)
                      (Distinct-middle c os ts (subst Distinct (in_opers y) formed.oper.distinct)) h
                      (sym e))
                  b,
            )

    oper_list : Lists 0 (opers q) without.opers
    unfolding unlink
    oper_list = elim (Bool-cases (p.is_oper c)) [
      | inl y ↦ rw y (
          del_from_list-Lists 0 c os ts (opers p)
            (subst (Lists 0 (opers p)) (in_opers y) formed.oper))
      | inr n ↦ rw n formed.oper
    ]

    -- The record is off the list of its parent, the list of all and SIOpers, and is freed.
    pub unlink-Formed : Formed rank dying (unlink cli c p) without
    unfolding unlink
    unlink-Formed = record {
      all =
          del_from_list-Family 0 dec_bool (first_all p) (first_all q) p.a_links v.all without.all
            cli formed.all c ks bs in_all
            (set_everyone-Replaced p cli (del_from_list 0 c (everyone cli p))) off_all;
      kids =
          subst (λ (l : Links). Family 0 dec_side (first_kid q) l without.kids)
            (sym (
              set_children-links p cli (p.parent c)
                (del_from_list 0 c (children cli (p.parent c) p)) below))
            (del_from_list-Family 0 dec_side (first_kid p) (first_kid q) p.cs_links v.kids
              without.kids (p.parent c, cli) formed.kids c us vs in_kids
              (set_children-Replaced p cli (p.parent c)
                (del_from_list 0 c (children cli (p.parent c) p)) below)
              off_kids);
      hash = formed.hash;
      oper = oper_list;
      placed = placed;
      kid = kid;
      hashed = hashed;
      opered = opered;
      numclients = fewer_clients cli in_all;
      numgservers = fewer_servers cli in_all;
      numopers = elim (Bool-cases (p.is_oper c)) [
        | inl y ↦ rw y (
          omega (
            arith,
            formed.numopers,
            ap length (in_opers y),
            length-append os ts,
            length-append os (c ∷ ts),
          ),
          omega arith,
        )
        | inr n ↦ rw n formed.numopers
      ];
    }
      where
        fewer_clients :
            (b : Bool)
            → v.all b ≡ ks ++ c ∷ bs
            → Counts
                (if b then sub32 p.numclients 1 else p.numclients)
                (length (put_bool v.all b (ks ++ bs) true))
        fewer_clients true e = (
          omega (
            arith,
            formed.numclients,
            ap length e,
            length-append ks bs,
            length-append ks (c ∷ bs),
          ),
          omega arith,
        )
        fewer_clients false e = formed.numclients

        fewer_servers :
            (b : Bool)
            → v.all b ≡ ks ++ c ∷ bs
            → Counts
                (if b then p.numgservers else sub32 p.numgservers 1)
                (length (put_bool v.all b (ks ++ bs) false))
        fewer_servers true e = formed.numgservers
        fewer_servers false e = (
          omega (
            arith,
            formed.numgservers,
            ap length e,
            length-append ks bs,
            length-append ks (c ∷ bs),
          ),
          omega arith,
        )
