-- ===== src/Clients/Children.antt =====
-- The loops of siclient_free of daemon/hash.c over the children of a server.
use efnet_services.Common.{
  ℕ, zero, suc, ◌≡◌, refl, sym, ap, ◌∙◌, subst, ◌≢◌, ◌⊎◌, inl, inr, ◌<◌, ◌≤◌, ◌+◌, List, [], ◌∷◌,
  ◌++◌, ◌==◌, Bool, true, false, some, length, head_or, All, All-In, All-map, In, eq→==, ne→==,
  arith,
}
use efnet_services.Run.{Text}
use efnet_services.Links.Family.{family-proper}
use efnet_services.Network.Joined.{Side, dec_side}
use efnet_services.Clients.{Clients, World}
use efnet_services.Clients.Free.{set_from_split, free_children, siclient_free}
use efnet_services.Clients.Formed.{View, Formed, first_kid}
use efnet_services.Clients.Freed.{Under, Under-below, Fixed, NetOk, Between, Freed}

module _ (to_lower : ℕ → ℕ) (same : Text → Text → Bool) (rank : ℕ → ℕ) (conn parent : ℕ → ℕ)
    (jupe : ℕ → Bool) (Calm : ℕ → Type 0)
    (quiet : (x : ℕ) → Calm x → (conn x ≡ 0) × (jupe x ≡ false))
    (spreads : (x y : ℕ) → Calm x → parent y ≡ x → Calm y) (limit : ℕ) where
  abbrev pub Held : Clients → Type 0
  Held = Fixed to_lower same rank conn parent jupe

  abbrev pub Nets : World → Type 0
  Nets = NetOk to_lower same rank conn parent jupe

  abbrev pub Inner : List ℕ → ℕ → View → View → Type 0
  Inner = Between to_lower same rank conn parent jupe

  -- What is shown for each fuel: a record with a parent, none of those that are freed at the time, goes
  -- with those below it when the fuel is for the height of the tree.
  abbrev pub Frees : ℕ → Type 0
  Frees fuel =
      (dying : List ℕ) (w : World) (t : View) (d : ℕ) (cli : Bool) (us vs : List ℕ)
      → Formed rank dying w.people t
      → Held w.people
      → Nets w
      → In d (t.all cli)
      → parent d ≢ 0
      → Calm d
      → All (λ y. rank y < rank d) dying
      → t.kids (parent d, cli) ≡ us ++ d ∷ vs
      → limit < rank d + fuel
      → (r : World) × (u : View) × (siclient_free same fuel d w ≡ some r)
        × Freed to_lower same rank conn parent jupe dying d cli us vs t r u

  pub split-Formed :
      (dying : List ℕ) (w : World) (t : View) (x : ℕ)
      → Formed rank dying w.people t
      → Formed rank dying (set_from_split x w).people t
  split-Formed dying w t x f = record {
    all = f.all;
    kids = f.kids;
    hash = f.hash;
    oper = f.oper;
    placed = f.placed;
    kid = f.kid;
    hashed = f.hashed;
    opered = f.opered;
    numclients = f.numclients;
    numgservers = f.numgservers;
    numopers = f.numopers;
  }

  -- One list of children is empty, and what is not below `c` is the same.
  pub record Emptied (dying : List ℕ) (c : ℕ) (b : Bool) (t : View) (r : World) (u : View)
      : Type 0 where
    pub formed : Formed rank dying r.people u
    pub fixed : Held r.people
    pub net : Nets r
    pub empty : u.kids (c, b) ≡ []
    pub fewer : (k : Bool) (x : ℕ) → In x (u.all k) → In x (t.all k)
    pub spared : (k : Bool) (x : ℕ) → In x (t.all k) → In x (u.all k) ⊎ Under parent c x
    pub stays : (k : Bool) (x : ℕ) → In x dying → In x (t.all k) → In x (u.all k)
    pub lower : (s : Side) → rank s.0 ≤ rank c → s ≢ (c, b) → u.kids s ≡ t.kids s

  pub free_children-Emptied :
      (fuel : ℕ)
      → Frees fuel
      → (rounds : ℕ) (xs dying : List ℕ) (c : ℕ) (b : Bool) (w : World) (t : View)
      → Formed rank dying w.people t
      → Held w.people
      → Nets w
      → Calm c
      → c ≢ 0
      → All (λ y. rank y ≤ rank c) dying
      → limit < rank c + suc fuel
      → t.kids (c, b) ≡ xs
      → length xs < rounds
      → (r : World) × (u : View) × (free_children (siclient_free same fuel) rounds b c w ≡ some r)
        × Emptied dying c b t r u
  unfolding free_children
  free_children-Emptied fuel frees zero xs dying c b w t formed fixed net calm proper lower high
        here enough =
      absurd (omega arith)
  free_children-Emptied fuel frees (suc rounds) [] dying c b w t formed fixed net calm proper lower
        high here enough =
      let first : first_kid w.people (c, b) ≡ 0 =
        (formed.kids.lists (c, b)).starts ∙ ap (head_or 0) here in
      let is_end : (first_kid w.people (c, b) == 0) ≡ true =
        eq→== (first_kid w.people (c, b)) 0 first in
      (
        w,
        t,
        rw (free_children, is_end) refl,
        record {
          formed = formed;
          fixed = fixed;
          net = net;
          empty = here;
          fewer = λ k x i. i;
          spared = λ k x i. inl i;
          stays = λ k x j i. i;
          lower = λ s e n. refl;
        },
      )
  free_children-Emptied fuel frees (suc rounds) (x ∷ xs) dying c b w t formed fixed net calm proper
        lower high here enough =
      let first : first_kid w.people (c, b) ≡ x =
        (formed.kids.lists (c, b)).starts ∙ ap (head_or 0) here in
      let is_kid = subst (In x) (sym here) (inl refl) in
      let x_proper : x ≢ 0 = λ z.
        All-In (λ k. 0 ≢ k) x (t.kids (c, b))
          (family-proper 0 dec_side (first_kid w.people) w.people.cs_links t.kids formed.kids
            (c, b))
          is_kid (sym z) in
      let (par, in_all, in_servers, above) = formed.kid (c, b) x is_kid in
      let over : parent x ≡ c = ap (λ (f : ℕ → ℕ). f x) (sym fixed.parent_is) ∙ par in
      let (r, u, run, freed) =
        frees dying (set_from_split x w) t x b [] xs (split-Formed dying w t x formed)
          (record { conn_is = fixed.conn_is; parent_is = fixed.parent_is; jupe_is = fixed.jupe_is })
          net in_all (λ z. proper (sym over ∙ z)) (spreads c x calm over)
          (All-map (λ y. rank y ≤ rank c) (λ y. rank y < rank x) dying (λ y h. omega (arith, above))
            lower)
          (subst (λ (k : ℕ). t.kids (k, b) ≡ x ∷ xs) (sym over) here) (omega (arith, above)) in
      let (q, v, rest, emptied) =
        free_children-Emptied fuel frees rounds xs dying c b r u freed.formed freed.fixed freed.net
          calm proper lower high (subst (λ (k : ℕ). u.kids (k, b) ≡ xs) over freed.own)
          (omega arith) in
      let is_first : (first_kid w.people (c, b) == 0) ≡ false = rw first (ne→== x 0 x_proper) in
      let this =
        subst (λ (k : ℕ). siclient_free same fuel k (set_from_split k w) ≡ some r) (sym first)
          run in
      (
        q,
        v,
        rw (free_children, is_first, this) rest,
        record {
          formed = emptied.formed;
          fixed = emptied.fixed;
          net = emptied.net;
          empty = emptied.empty;
          fewer = λ k z i. freed.fewer k z (emptied.fewer k z i);
          spared = λ k z i. elim (freed.spared k z i) [
            | inr d ↦ inr (Under-below parent c x z proper over d)
            | inl j ↦ emptied.spared k z j
          ];
          stays = λ k z j i. emptied.stays k z j (freed.stays k z j i);
          lower = λ s e n.
              subst (λ ks. v.kids s ≡ ks)
                (freed.lower s (omega (arith, above)) (λ f. n (f ∙ ap (λ (k : ℕ). (k, b)) over)))
                (emptied.lower s e n);
        },
      )
