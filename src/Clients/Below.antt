-- ===== src/Clients/Below.antt =====
-- The part of siclient_free of daemon/hash.c that is for servers.
use efnet_services.Common.{
  ℕ, suc, ◌≡◌, refl, sym, ap, ◌∙◌, subst, ◌≢◌, inl, inr, ◌<◌, ◌≤◌, ◌+◌, List, [], ◌∷◌, ◌++◌, Bool,
  true, false, Option, some, length, All, All-In, All-map, In, arith,
}
use efnet_services.Run.{Text}
use efnet_services.Links.Family.{In-middle, Distinct-length, family-proper}
use efnet_services.Network.Joined.{Side, dec_bool}
use efnet_services.Clients.{Clients, World}
use efnet_services.Clients.Lists.{is_client}
use efnet_services.Clients.Free.{unlinked, free_children, free_server, siclient_free}
use efnet_services.Clients.Formed.{View, Formed, first_all}
use efnet_services.Clients.Freed.{Freed, unlinked-Freed}
use efnet_services.Clients.Children.{Held, Nets, Frees, free_children-Emptied}

module _ (to_lower : ℕ → ℕ) (same : Text → Text → Bool) (rank : ℕ → ℕ) (conn parent : ℕ → ℕ)
    (jupe : ℕ → Bool) (Calm : ℕ → Type 0)
    (quiet : (x : ℕ) → Calm x → (conn x ≡ 0) × (jupe x ≡ false))
    (spreads : (x y : ℕ) → Calm x → parent y ≡ x → Calm y) (limit : ℕ) where
  abbrev H : Clients → Type 0
  H = Held to_lower same rank conn parent jupe Calm quiet spreads limit

  abbrev N : World → Type 0
  N = Nets to_lower same rank conn parent jupe Calm quiet spreads limit

  abbrev F : ℕ → Type 0
  F = Frees to_lower same rank conn parent jupe Calm quiet spreads limit

  -- A client with a parent has no children.
  pub no_children :
      (dying : List ℕ) (p : Clients) (t : View) (d : ℕ)
      → Formed rank dying p t
      → is_client p d ≡ true
      → p.parent d ≢ 0
      → (b : Bool) → t.kids (d, b) ≡ []
  no_children dying p t d formed client proper b = bare (t.kids (d, b)) refl
    where
      clash : is_client p d ≡ true → is_client p d ≡ false → ⊥
      clash e f = cc

      bare : (xs : List ℕ) → t.kids (d, b) ≡ xs → t.kids (d, b) ≡ []
      bare [] e = e
      bare (x ∷ xs) e = elim (formed.kid (d, b) x (subst (In x) (sym e) (inl refl))).2.1 [
        | inl f ↦ absurd (clash client f)
        | inr z ↦ absurd (proper z)
      ]

  -- A server has no more children than there are records of their kind.
  pub few :
      (dying : List ℕ) (p : Clients) (t : View) (d : ℕ) (b : Bool) {n : ℕ}
      → Formed rank dying p t
      → n ≡ length (t.all b)
      → length (t.kids (d, b)) < suc n
  few dying p t d b formed e =
      let short =
        Distinct-length (t.kids (d, b)) (t.all b) (formed.kids.lists (d, b)).distinct
          (λ x i. (formed.kid (d, b) x i).1) in
      omega (arith, short)

  pub free_server-run :
      (free : ℕ → World → Option World) (d : ℕ) (w q r : World)
      → free_children free (suc w.people.numgservers) false d w ≡ some q
      → free_children free (suc q.people.numclients) true d q ≡ some r
      → free_server free d w ≡ some (unlinked false d r)
  unfolding free_server
  free_server-run free d w q r e f = rw (free_server, e, f) refl

  -- From the loops on, for a server.
  pub free_server-Freed :
      (fuel : ℕ)
      → F fuel
      → (dying : List ℕ) (w : World) (t : View) (d : ℕ) (us vs : List ℕ)
      → Formed rank (d ∷ dying) w.people t
      → H w.people
      → N w
      → In d (t.all false)
      → parent d ≢ 0
      → Calm d
      → All (λ y. rank y < rank d) dying
      → t.kids (parent d, false) ≡ us ++ d ∷ vs
      → limit < rank d + suc fuel
      → (r : World) × (u : View) × (free_server (siclient_free same fuel) d w ≡ some r)
        × Freed to_lower same rank conn parent jupe dying d false us vs t r u
  unfolding free_server
  free_server-Freed fuel frees dying w t d us vs formed fixed net i proper calm lower here high =
      let d_proper : d ≢ 0 = λ z.
        All-In (λ k. 0 ≢ k) d (t.all false)
          (family-proper 0 dec_bool (first_all w.people) w.people.a_links t.all formed.all false) i
          (sym z) in
      let is_kid = subst (In d) (sym here) (In-middle d us vs) in
      let above : rank (parent d) < rank d = (formed.kid (parent d, false) d is_kid).3 in
      let beside : (b : Bool) → ◌≢◌ {A = Side} (parent d, false) (d, b) =
        λ b e. apart (parent d) above (ap (λ (s : Side). s.0) e) in
      let wide : All (λ y. rank y ≤ rank d) (d ∷ dying) = (
        omega arith,
        All-map (λ y. rank y < rank d) (λ y. rank y ≤ rank d) dying (λ y h. omega (arith, h)) lower,
      ) in
      let (q, m, run₁, e₁) =
        free_children-Emptied to_lower same rank conn parent jupe Calm quiet spreads limit fuel
          frees (suc w.people.numgservers) (t.kids (d, false)) (d ∷ dying) d false w t formed fixed
          net calm d_proper wide high refl
          (few (d ∷ dying) w.people t d false formed formed.numgservers.0) in
      let (r, u, run₂, e₂) =
        free_children-Emptied to_lower same rank conn parent jupe Calm quiet spreads limit fuel
          frees (suc q.people.numclients) (m.kids (d, true)) (d ∷ dying) d true q m e₁.formed
          e₁.fixed e₁.net calm d_proper wide high refl
          (few (d ∷ dying) q.people m d true e₁.formed e₁.formed.numclients.0) in
      let differ : ◌≢◌ {A = Side} (d, false) (d, true) = λ e. other (ap (λ (s : Side). s.1) e) in
      let no_servers = e₂.lower (d, false) (omega arith) differ ∙ e₁.empty in
      let (v, freed) =
        unlinked-Freed to_lower same rank conn parent jupe dying d false us vs t u r e₂.formed
          e₂.fixed e₂.net (e₂.stays false d (inl refl) (e₁.stays false d (inl refl) i))
          (e₂.lower (parent d, false) (omega (arith, above)) (beside true)
            ∙ e₁.lower (parent d, false) (omega (arith, above)) (beside false)
            ∙ here)
          (either u no_servers e₂.empty) proper lower
          (record {
            fewer = λ b x j. e₁.fewer b x (e₂.fewer b x j);
            spared = λ b x j. elim (e₁.spared b x j) [ inl h ↦ e₂.spared b x h | inr g ↦ inr g ];
            stays = λ b x k j. e₂.stays b x k (e₁.stays b x k j);
            lower = λ s h.
                e₂.lower s (omega (arith, h)) (λ e. apart s.0 h (ap (λ (k : Side). k.0) e))
                ∙ e₁.lower s (omega (arith, h)) (λ e. apart s.0 h (ap (λ (k : Side). k.0) e));
          }) in
      (unlinked false d r, v, free_server-run (siclient_free same fuel) d w q r run₁ run₂, freed)
    where
      apart : (x : ℕ) → rank x < rank d → x ≡ d → ⊥
      apart x h e = omega (arith, ap rank e)

      other : false ≢ true
      other e = cc

      either :
          (u : View)
          → u.kids (d, false) ≡ []
          → u.kids (d, true) ≡ []
          → (b : Bool) → u.kids (d, b) ≡ []
      either u e f true = f
      either u e f false = e
