-- ===== src/Clients/Start.antt =====
-- sihash_init of daemon/hash.c, and the lists that it leaves.
use efnet_services.Common.{
  ℕ, ◌≡◌, refl, sym, ◌∙◌, subst, ==→eq, ◌≢◌, ◌⊎◌, inl, inr, ◌%◌, [], ◌∷◌, ◌==◌, if◌then◌else◌, Bool,
  true, false, Avoids, In, update, update_self, Bool-cases, eq→==, arith,
}
use efnet_services.Run.{Text}
use efnet_services.Links.{add_to_list}
use efnet_services.Links.Family.{Family, add_to_list-Family}
use efnet_services.Network.{Net}
use efnet_services.Network.Joined.{dec_position, dec_bool, dec_side, update-Replaced}
use efnet_services.Network.Steps.{no_links}
use efnet_services.Clients.{Clients, World}
use efnet_services.Clients.Lists.{
  is_client, everyone, bucket, siclient_add, hash_add, starts_with_star, client_hashsize,
  sihash_compute_client,
}
use efnet_services.Clients.Formed.{
  View, Formed, first_all, first_kid, put_bool, put_bool-Replaced, set_everyone-Replaced,
}

-- The memory that is cleared, and the name of SIMe.
abbrev pub first_people : ℕ → Text → Clients
first_people me name = record {
  conn = λ c. 0;
  parent = λ c. 0;
  hashv = λ c. 0;
  hv = λ c. 0;
  name = update (λ c. []) me name;
  c_type = λ c. 0;
  host_mask = λ c. false;
  jupe = λ c. false;
  del_jupe = λ c. false;
  local = λ c. false;
  sent_eob = λ c. false;
  got_eob = λ c. false;
  from_split = λ c. false;
  is_oper = λ c. false;
  is_invis = λ c. false;
  clients = λ c. 0;
  servers = λ c. 0;
  cs_links = no_links;
  si_clients = 0;
  si_servers = 0;
  a_links = no_links;
  si_opers = 0;
  o_links = no_links;
  buckets = λ k. 0;
  h_links = no_links;
  me = 0;
  uplink = 0;
  numclients = 0;
  maxclients = 0;
  maxclients_time = 0;
  numgservers = 0;
  maxgservers = 0;
  maxgservers_time = 0;
  nummservers = 0;
  maxmservers = 0;
  maxmservers_time = 0;
  numinvis = 0;
  numopers = 0;
  serversbursting = 0;
}

unfoldable pub sihash_init : (ℕ → ℕ) → ℕ → Text → ℕ → Net → World
unfolding siclient_add
sihash_init to_lower me name now net =
    let w =
      siclient_add to_lower 0 me now
        (record { net = net; people = first_people me name; events = [] }) in
    record w { people = record w.people { me = me } }

module _ (to_lower : ℕ → ℕ) (rank : ℕ → ℕ) (me : ℕ) (name : Text) (now : ℕ) (net : Net) where
  abbrev p : Clients
  p = first_people me name

  abbrev q : Clients
  q = (sihash_init to_lower me name now net).people

  abbrev slot : ℕ
  slot =
      if starts_with_star (p.name me)
      then client_hashsize
      else sihash_compute_client to_lower (p.name me) % client_hashsize

  -- SIMe is on SIClients, by its type, which is 0, and in its bucket.
  abbrev pub only_me : View
  only_me = record {
    all = put_bool (λ b. []) true (me ∷ []);
    kids = λ s. [];
    bucket = update (λ k. []) slot (me ∷ []);
    opers = [];
  }

  none_of :
      {K : Type 0} (dec : (j k : K) → (j ≡ k) ⊎ (j ≢ k)) (first : K → ℕ)
      → ((k : K) → first k ≡ 0)
      → Family 0 dec first no_links (λ k. [])
  none_of dec first zero_first = record {
    lists = λ k. record { starts = zero_first k; linked = tt; distinct = tt };
    apart = λ j k n. tt;
  }

  either : (b : Bool) → ◌≡◌ {A = ℕ} (if b then 0 else 0) 0
  either true = refl
  either false = refl

  hv_me : (c : ℕ) → c ≡ me → q.hv c ≡ slot
  unfolding sihash_init siclient_add hash_add
  hv_me c e = rw (eq→== c me e) refl

  no_parent : (c : ℕ) → q.parent c ≡ 0
  unfolding sihash_init siclient_add hash_add
  no_parent c = elim (Bool-cases (c == me)) [ inl y ↦ rw y refl | inr n ↦ rw n refl ]

  placed :
      (b : Bool) (c : ℕ)
      → In c (only_me.all b)
      → (is_client q c ≡ b)
        × (In c [] ⊎ In c (only_me.bucket (q.hv c)))
        × (q.parent c ≢ 0 → In c [])
        × (q.is_oper c ≡ true → In c [])
  unfolding sihash_init siclient_add hash_add
  placed false c i = absurd i
  placed true c (inr i) = absurd i
  placed true c (inl e) = (
    refl,
    inr (
        subst (λ k. In c (only_me.bucket k)) (sym (hv_me c e))
          (subst (In c) (sym (update_self (λ k. []) slot (me ∷ []))) (inl e))),
    λ n. absurd (n (no_parent c)),
    λ o. absurd (clash o),
  )
    where
      clash : false ≡ true → ⊥
      clash o = cc

  hashed :
      (k c : ℕ)
      → In c (only_me.bucket k)
      → (q.hv c ≡ k) × Avoids c [] × In c (only_me.all (is_client q c))
  unfolding sihash_init siclient_add hash_add
  hashed k c i = elim (Bool-cases (k == slot)) [
    | inr n ↦ absurd (subst (λ b. In c (if b then me ∷ [] else [])) n i)
    | inl y ↦ own (==→eq k slot y) (subst (λ b. In c (if b then me ∷ [] else [])) y i)
  ]
    where
      own : k ≡ slot → In c (me ∷ []) → (q.hv c ≡ k) × Unit {0} × In c (me ∷ [])
      own e (inl f) = (hv_me c f ∙ sym e, tt, inl f)
      own e (inr j) = absurd j

  -- At the start the lists are well-formed, and st_numclients counts SIMe.
  pub sihash_init-Formed :
      me ≢ 0 → Formed rank [] (sihash_init to_lower me name now net).people only_me
  unfolding sihash_init siclient_add hash_add
  sihash_init-Formed proper = record {
    all =
        add_to_list-Family 0 dec_bool (first_all p) (first_all q) no_links (λ b. []) only_me.all
          true (none_of dec_bool (first_all p) either) me proper (λ b. tt)
          (set_everyone-Replaced p true (add_to_list 0 me (everyone true p)))
          (put_bool-Replaced (λ b. []) true (me ∷ []));
    kids = none_of dec_side (first_kid q) (λ s. either s.1);
    hash =
        add_to_list-Family 0 dec_position p.buckets q.buckets no_links (λ k. []) only_me.bucket slot
          (none_of dec_position p.buckets (λ k. refl)) me proper (λ k. tt)
          (update-Replaced p.buckets slot (add_to_list 0 me (bucket slot p)).first)
          (update-Replaced (λ k. []) slot (me ∷ []));
    oper = record { starts = refl; linked = tt; distinct = tt };
    placed = placed;
    kid = λ s x i. absurd i;
    hashed = hashed;
    opered = λ x i. absurd i;
    numclients = (omega arith, omega arith);
    numgservers = (refl, omega arith);
    numopers = (refl, omega arith);
  }
