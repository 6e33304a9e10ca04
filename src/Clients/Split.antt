-- ===== src/Clients/Split.antt =====
-- siclient_free of daemon/hash.c on a tree of servers and clients.
use efnet_services.Common.{
  ℕ, zero, suc, ◌≡◌, refl, sym, ap, ◌∙◌, subst, ◌≢◌, ◌⊎◌, inl, inr, ◌<◌, ◌≤◌, ◌+◌, List, [], ◌∷◌,
  ◌++◌, ◌==◌, if◌then◌else◌, Bool, true, false, Option, some, All, All-In, In, update, eq→==, arith,
}
use efnet_services.Run.{Text}
use efnet_services.Links.Family.{In-split}
use efnet_services.Network.LeaveAll.{siclient_del_channels-Alone}
use efnet_services.Network.Channels.{siclient_del_channels}
use efnet_services.Network.{Net}
use efnet_services.Clients.{Clients, World, removed}
use efnet_services.Clients.Lists.{is_client, hash_del}
use efnet_services.Clients.Free.{forget, unlinked, free_server, free_rest, siclient_free, take_back}
use efnet_services.Clients.Formed.{View, Formed}
use efnet_services.Clients.Forget.{forget-Formed}
use efnet_services.Clients.Freed.{Under, top, below, Freed, unlinked-Freed}
use efnet_services.Clients.Children.{Held, Nets, Frees}
use efnet_services.Clients.Below.{no_children, free_server-Freed}

module _ (to_lower : ℕ → ℕ) (same : Text → Text → Bool) (rank : ℕ → ℕ) (conn parent : ℕ → ℕ)
    (jupe : ℕ → Bool) (Calm : ℕ → Type 0)
    (quiet : (x : ℕ) → Calm x → (conn x ≡ 0) × (jupe x ≡ false))
    (spreads : (x y : ℕ) → Calm x → parent y ≡ x → Calm y) (limit : ℕ) where
  abbrev H : Clients → Type 0
  H = Held to_lower same rank conn parent jupe Calm quiet spreads limit

  abbrev N : World → Type 0
  N = Nets to_lower same rank conn parent jupe Calm quiet spreads limit

  abbrev F : ℕ → Type 0
  F = Frees to_lower same rank conn parent jupe Calm quiet spreads limit

  abbrev quiet_world : ℕ → World → World
  quiet_world d w = record w { events = w.events ++ take_back d w.people }

  free_rest-run :
      (free : ℕ → World → Option World) (d : ℕ) (w : World) (cli : Bool)
      → w.people.jupe d ≡ false
      → is_client w.people d ≡ cli
      → free_rest free d w ≡ (
          if cli
          then some (unlinked true d (quiet_world d w))
          else free_server free d (quiet_world d w))
  unfolding free_rest
  free_rest-run free d w cli e f = rw (free_rest, e, f) refl

  abbrev forgotten : ℕ → World → Net → World
  forgotten d w n = record {
    net = n;
    people = forget d w.people;
    events = w.events ++ removed d ∷ [];
  }

  siclient_free-run :
      (fuel d : ℕ) (w : World) (n : Net)
      → (w.people.conn d == 0) ≡ true
      → siclient_del_channels same d w.net ≡ some n
      → siclient_free same (suc fuel) d w ≡ free_rest (siclient_free same fuel) d (forgotten d w n)
  unfolding siclient_free
  siclient_free-run fuel d w n e f = rw (siclient_free, e, f) refl

  same_fields : (d : ℕ) (p : Clients) → H p → H (forget d p)
  unfolding forget hash_del
  same_fields d p h = record { conn_is = h.conn_is; parent_is = h.parent_is; jupe_is = h.jupe_is }

  forget-jupe : (d : ℕ) (p : Clients) → (forget d p).jupe ≡ p.jupe
  unfolding forget hash_del
  forget-jupe d p = refl

  forget-is_client : (d : ℕ) (p : Clients) → is_client (forget d p) d ≡ is_client p d
  unfolding forget hash_del
  forget-is_client d p = refl

  -- What is left to do once the record is out of the hash table.
  rest-Freed :
      (fuel : ℕ)
      → F fuel
      → (dying : List ℕ) (w : World) (t : View) (d : ℕ) (cli : Bool) (us vs : List ℕ)
      → Formed rank (d ∷ dying) w.people t
      → H w.people
      → N w
      → In d (t.all cli)
      → parent d ≢ 0
      → Calm d
      → All (λ y. rank y < rank d) dying
      → t.kids (parent d, cli) ≡ us ++ d ∷ vs
      → limit < rank d + suc fuel
      → (r : World) × (u : View) × ((if cli
            then some (unlinked true d w)
            else free_server (siclient_free same fuel) d w)
          ≡ some r)
        × Freed to_lower same rank conn parent jupe dying d cli us vs t r u
  rest-Freed fuel frees dying w t d false us vs formed fixed net i proper calm lower here high =
      free_server-Freed to_lower same rank conn parent jupe Calm quiet spreads limit fuel frees
        dying w t d us vs formed fixed net i proper calm lower here high
  rest-Freed fuel frees dying w t d true us vs formed fixed net i proper calm lower here high =
      let (v, freed) =
        unlinked-Freed to_lower same rank conn parent jupe dying d true us vs t t w formed fixed net
          i here
          (no_children to_lower same rank conn parent jupe Calm quiet spreads limit (d ∷ dying)
            w.people t d formed (formed.placed true d i).0
            (λ z. proper (ap (λ (f : ℕ → ℕ). f d) (sym fixed.parent_is) ∙ z)))
          proper lower
          (record {
            fewer = λ b x j. j;
            spared = λ b x j. inl j;
            stays = λ b x k j. j;
            lower = λ s h. refl;
          }) in
      (unlinked true d w, v, refl, freed)

  -- Out of the hash table, the other lists are as they were.
  hashed_off :
      (dying : List ℕ) (d : ℕ) (cli : Bool) (us vs bs : List ℕ) (t : View) (hv : ℕ) (r : World)
      (u : View)
      → Freed to_lower same rank conn parent jupe dying d cli us vs
          (record t { bucket = update t.bucket hv bs })
          r
          u
      → Freed to_lower same rank conn parent jupe dying d cli us vs t r u
  hashed_off dying d cli us vs bs t hv r u f = record {
    formed = f.formed;
    fixed = f.fixed;
    net = f.net;
    gone = f.gone;
    fewer = f.fewer;
    spared = f.spared;
    stays = f.stays;
    lower = f.lower;
    own = f.own;
  }

  siclient_free-Frees : ((x : ℕ) → rank x ≤ limit) → (fuel : ℕ) → F fuel
  siclient_free-Frees bound zero dying w t d cli us vs formed fixed net i proper calm lower here
        high =
      absurd (omega (arith, bound d))
  siclient_free-Frees bound (suc fuel) dying w t d cli us vs formed fixed (n, whole) i proper calm
        lower here high =
      let p = w.people in
      let (no_conn, no_jupe) = quiet d calm in
      let conn_zero : (p.conn d == 0) ≡ true =
        eq→== (p.conn d) 0 (ap (λ (f : ℕ → ℕ). f d) fixed.conn_is ∙ no_conn) in
      let (net, m, run, alone) = siclient_del_channels-Alone to_lower same w.net n d whole in
      let place = formed.placed cli d i in
      let (bs, cs, in_bucket) = In-split d (t.bucket (p.hv d)) (unburied place.1) in
      let world = quiet_world d (forgotten d w net) in
      let jupe_not : (forget d p).jupe d ≡ false =
        ap (λ (f : ℕ → Bool). f d) (forget-jupe d p ∙ fixed.jupe_is) ∙ no_jupe in
      let kind : is_client (forget d p) d ≡ cli = forget-is_client d p ∙ place.0 in
      let (r, u, last, freed) =
        rest-Freed fuel (siclient_free-Frees bound fuel) dying world
          (record t { bucket = update t.bucket (p.hv d) (bs ++ cs) }) d cli us vs
          (forget-Formed rank dying p t d formed bs cs in_bucket) (same_fields d p fixed)
          (m, alone.0) i proper calm lower here high in
      (
        r,
        u,
        siclient_free-run fuel d w net conn_zero run
            ∙ free_rest-run (siclient_free same fuel) d (forgotten d w net) cli jupe_not kind
            ∙ last,
        hashed_off dying d cli us vs (bs ++ cs) t (p.hv d) r u freed,
      )
    where
      unburied : In d dying ⊎ In d (t.bucket (w.people.hv d)) → In d (t.bucket (w.people.hv d))
      unburied (inr h) = h
      unburied (inl h) = absurd (omega (arith, All-In (λ y. rank y < rank d) d dying lower h))

  -- The records that are left are those that were there and are not below `d`.
  abbrev pub Splits : ℕ → View → World → View → Type 0
  Splits d t r u =
      Formed rank [] r.people u
      × N r
      × ((b : Bool) (x : ℕ) → In x (u.all b) → In x (t.all b) × (Under parent d x → ⊥))
      × ((b : Bool) (x : ℕ) → In x (t.all b) → (Under parent d x → ⊥) → In x (u.all b))

  off_tree :
      (d : ℕ) (cli : Bool) (us vs : List ℕ) (t : View) (r : World) (u : View)
      → Freed to_lower same rank conn parent jupe [] d cli us vs t r u
      → (b : Bool) (x : ℕ) → In x (u.all b)
      → Under parent d x
      → ⊥
  off_tree d cli us vs t r u freed b x i (top y e) =
      freed.gone b (subst (λ (k : ℕ). In k (u.all b)) e i)
  off_tree d cli us vs t r u freed b x i (below y n under) =
      let par : r.people.parent x ≡ parent x = ap (λ (f : ℕ → ℕ). f x) freed.fixed.parent_is in
      let is_kid = (freed.formed.placed b x i).2 (λ z. n (sym par ∙ z)) in
      let there = (freed.formed.kid (r.people.parent x, b) x is_kid).2 in
      off_tree d cli us vs t r u freed (is_client r.people (r.people.parent x)) (parent x)
        (subst (λ (k : ℕ). In k (u.all (is_client r.people (r.people.parent x)))) par there.0) under

  -- On well-formed lists siclient_free ends when the fuel is for the height of the tree, that is for the
  -- ranks from the record's to the limit: it takes the record, the servers and
  -- clients below it, and no others, off SIClients and SIServers, no assertion fails, and the lists and
  -- the network of channels are well-formed again. The record has a parent, and it and those
  -- below it are neither jupes nor have a connection of their own.
  pub siclient_free-Splits :
      ((x : ℕ) → rank x ≤ limit)
      → (fuel : ℕ) (w : World) (t : View) (d : ℕ) (cli : Bool) → Formed rank [] w.people t
      → H w.people
      → N w
      → In d (t.all cli)
      → parent d ≢ 0
      → Calm d
      → limit < rank d + fuel
      → (r : World) × (u : View) × (siclient_free same fuel d w ≡ some r) × Splits d t r u
  siclient_free-Splits bound fuel w t d cli formed fixed net i proper calm high =
      let par : w.people.parent d ≡ parent d = ap (λ (f : ℕ → ℕ). f d) fixed.parent_is in
      let is_kid = (formed.placed cli d i).2 (λ z. proper (sym par ∙ z)) in
      let (us, vs, here) =
        In-split d (t.kids (parent d, cli))
          (subst (λ (k : ℕ). In d (t.kids (k, cli))) par is_kid) in
      let (r, u, run, freed) =
        siclient_free-Frees bound fuel [] w t d cli us vs formed fixed net i proper calm tt here
          high in
      (
        r,
        u,
        run,
        (
          freed.formed,
          freed.net,
          λ b x j. (freed.fewer b x j, off_tree d cli us vs t r u freed b x j),
          λ b x j n. elim (freed.spared b x j) [ inl h ↦ h | inr under ↦ absurd (n under) ],
        ),
      )
