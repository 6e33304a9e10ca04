-- ===== src/Network/Joined.antt =====
-- The lists of the clients and of the channels of daemon/hash.c that match each other.
use efnet_services.Common.{
  ℕ, ◌≡◌, refl, ap, ap₂, ◌≢◌, ◌⊎◌, inl, inr, ◌+◌, ◌≤◌, List, [], ◌∷◌, ◌==◌, Bool, true, false,
  length, In, update, update_self, update_ne, Bool-cases, ==→eq, ==_false, arith,
}
use efnet_services.Links.{Chain}
use efnet_services.Links.Family.{Family, Replaced}
use efnet_services.Run.{npos}
use efnet_services.Network.{Members}
use efnet_services.Network.Users.{is_chanop, users_of, set_users}

-- A list of users: the channel, and whether it is that of the ops.
abbrev pub Side : Type 0
Side = ℕ × Bool

pub dec_position : (j k : ℕ) → (j ≡ k) ⊎ (j ≢ k)
dec_position j k = elim (Bool-cases (j == k)) [
  | inl y ↦ inl (==→eq j k y)
  | inr n ↦ inr (==_false j k n)
]

pub dec_bool : (a b : Bool) → (a ≡ b) ⊎ (a ≢ b)
dec_bool true true = inl refl
dec_bool true false = inr (λ e. cc)
dec_bool false true = inr (λ e. cc)
dec_bool false false = inl refl

pub dec_side : (j k : Side) → (j ≡ k) ⊎ (j ≢ k)
dec_side (a, x) (b, y) = elim (dec_position a b) [
  | inr n ↦ inr (λ e. n (ap (λ (p : Side). p.0) e))
  | inl e ↦ elim (dec_bool x y) [
    | inr n ↦ inr (λ f. n (ap (λ (p : Side). p.1) f))
    | inl f ↦ inl (ap₂ (λ (i : ℕ) (j : Bool). (i, j)) e f)
  ]
]

abbrev pub first_user : Members → Side → ℕ
first_user m s = (users_of s.0 s.1 m).first

-- The users of a channel, on both of its lists.
abbrev pub users : (Side → List ℕ) → ℕ → ℕ
users of ch = length (of (ch, true)) + length (of (ch, false))

-- A u_int that counts `k` records.
abbrev pub Counts : ℕ → ℕ → Type 0
Counts n k = (n ≡ k) × (n ≤ npos)

-- `on c` are the SI_CHANNELLIST records of a client and `of s` the SI_CLIENTLIST records on one of the
-- lists of a channel. The lists are well linked and share no record; each record has one on the other
-- side, with the same client and channel, that points back; an SI_CLIENTLIST is on the list that
-- its modes say; and the counters are the lengths.
pub record Joined (m : Members) (on : ℕ → List ℕ) (of : Side → List ℕ) : Type 0 where
  pub by_client : Family 0 dec_position m.channels m.channel_links on
  pub by_channel : Family 0 dec_side (first_user m) m.client_links of
  pub partner :
      (c x : ℕ)
      → In x (on c)
      → In (m.clptr x) (of (m.chptr x, is_chanop (m.modes (m.clptr x))))
        × (m.chlptr (m.clptr x) ≡ x)
        × (m.cptr (m.clptr x) ≡ c)
  pub back :
      (s : Side) (y : ℕ)
      → In y (of s)
      → In (m.chlptr y) (on (m.cptr y))
        × (m.clptr (m.chlptr y) ≡ y)
        × (s ≡ (m.chptr (m.chlptr y), is_chanop (m.modes y)))
  pub numchannels : (c : ℕ) → Counts (m.numchannels c) (length (on c))
  pub numclients : (ch : ℕ) → Counts (m.numclients ch) (users of ch)

pub update-Replaced {ℓ} :
    {V : Type ℓ} (f : ℕ → V) (k : ℕ) (v : V) → Replaced 0 dec_position k v f (update f k v)
update-Replaced f k v = record { new = update_self f k v; same = λ j n. update_ne f k v j n }

-- A function of the lists of users with another value at one.
abbrev pub put_side {ℓ} : {V : Type ℓ} → (Side → V) → Side → V → Side → V
put_side f s v t = elim (dec_side t s) [ inl e ↦ v | inr n ↦ f t ]

pub put_side-Replaced {ℓ} :
    {V : Type ℓ} (f : Side → V) (s : Side) (v : V) → Replaced 0 dec_side s v f (put_side f s v)
put_side-Replaced {V} f s v = record {
  new = new (dec_side s s);
  same = λ t n. same t n (dec_side t s);
}
  where
    new : (d : (s ≡ s) ⊎ (s ≢ s)) → ◌≡◌ {A = V} (elim d [ inl e ↦ v | inr n ↦ f s ]) v
    new (inl e) = refl
    new (inr n) = absurd (n refl)

    same :
        (t : Side)
        → t ≢ s
        → (d : (t ≡ s) ⊎ (t ≢ s)) → ◌≡◌ {A = V} (elim d [ inl e ↦ v | inr n ↦ f t ]) (f t)
    same t n (inl e) = absurd (n e)
    same t n (inr k) = refl

pub set_users-Replaced :
    (m : Members) (ch : ℕ) (op : Bool) (l : Chain)
    → Replaced 0 dec_side (ch, op) l.first (first_user m) (first_user (set_users ch op l m))
set_users-Replaced m ch true l = record { new = update_self m.ops ch l.first; same = same }
  where
    same : (t : Side) → t ≢ (ch, true) → first_user (set_users ch true l m) t ≡ first_user m t
    same (a, false) n = refl
    same (a, true) n = update_ne m.ops ch l.first a (λ e. n (ap (λ (k : ℕ). (k, true)) e))
set_users-Replaced m ch false l = record { new = update_self m.non_ops ch l.first; same = same }
  where
    same : (t : Side) → t ≢ (ch, false) → first_user (set_users ch false l m) t ≡ first_user m t
    same (a, true) n = refl
    same (a, false) n = update_ne m.non_ops ch l.first a (λ e. n (ap (λ (k : ℕ). (k, false)) e))

pub users_other :
    (of wide : Side → List ℕ) (ch k : ℕ) (op : Bool) (ys : List ℕ)
    → Replaced 0 dec_side (ch, op) ys of wide
    → k ≢ ch
    → users wide k ≡ users of k
users_other of wide ch k op ys r n =
    let ne : (b : Bool) → ◌≢◌ {A = Side} (k, b) (ch, op) = λ b e. n (ap (λ (p : Side). p.0) e) in
    omega (arith, ap length (r.same (k, true) (ne true)), ap length (r.same (k, false) (ne false)))

pub users_own :
    (of wide : Side → List ℕ) (ch : ℕ) (op : Bool) (ys : List ℕ)
    → Replaced 0 dec_side (ch, op) ys of wide
    → users wide ch + length (of (ch, op)) ≡ users of ch + length ys
users_own of wide ch true ys r =
    let ne : ◌≢◌ {A = Side} (ch, false) (ch, true) = λ e. differ (ap (λ (p : Side). p.1) e) in
    omega (arith, ap length r.new, ap length (r.same (ch, false) ne))
  where
    differ : false ≢ true
    differ e = cc
users_own of wide ch false ys r =
    let ne : ◌≢◌ {A = Side} (ch, true) (ch, false) = λ e. differ (ap (λ (p : Side). p.1) e) in
    omega (arith, ap length r.new, ap length (r.same (ch, true) ne))
  where
    differ : true ≢ false
    differ e = cc

-- A channel that a record is on has users.
pub users-In :
    (of : Side → List ℕ) (ch : ℕ) (op : Bool) (y : ℕ) → In y (of (ch, op)) → users of ch ≢ 0
users-In of ch op y i e = absurd (bare op (of (ch, op)) refl i)
  where
    bare : (b : Bool) (ys : List ℕ) → of (ch, b) ≡ ys → In y ys → ⊥
    bare b [] f j = j
    bare true (z ∷ ys) f j = omega (arith, ap length f)
    bare false (z ∷ ys) f j = omega (arith, ap length f)
