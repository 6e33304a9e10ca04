-- ===== src/Clients/Formed.antt =====
-- What holds of the servers and clients of daemon/hash.c between two calls.
use efnet_services.Common.{
  ℕ, ◌≡◌, refl, ap, ◌≢◌, ◌⊎◌, ◌<◌, List, Bool, true, false, length, Avoids, In, update_self,
  update_ne, ne→==,
}
use efnet_services.Links.{Chain}
use efnet_services.Links.Insert.{Lists}
use efnet_services.Links.Family.{Family, Replaced}
use efnet_services.Network.Joined.{Side, dec_position, dec_bool, dec_side, Counts}
use efnet_services.Clients.{Clients}
use efnet_services.Clients.Lists.{is_client, children, set_children, everyone, set_everyone, opers}

-- The records on the lists: SIClients and SIServers, the children of a server, the buckets of the hash
-- table, and SIOpers.
pub record View : Type 0 where
  pub all : Bool → List ℕ
  pub kids : Side → List ℕ
  pub bucket : ℕ → List ℕ
  pub opers : List ℕ

abbrev pub first_all : Clients → Bool → ℕ
first_all p b = (everyone b p).first

abbrev pub first_kid : Clients → Side → ℕ
first_kid p s = (children s.1 s.0 p).first

-- A record that may have children is on a list, and is a server or has no parent itself, as SIMe.
abbrev pub HasChildren : Clients → View → ℕ → Type 0
HasChildren p v s = In s (v.all (is_client p s)) × ((is_client p s ≡ false) ⊎ (p.parent s ≡ 0))

-- The lists are well linked and share no record. One of SIClients and SIServers has each record, by its
-- type; it is in the bucket of its hash, or one of `dying`, on the list of its parent, when it has
-- one, and on SIOpers, when it is an oper. The records on these lists are those, a parent is one
-- that may have children, of a lower rank, and the counters are the lengths.
pub record Formed (rank : ℕ → ℕ) (dying : List ℕ) (p : Clients) (v : View) : Type 0 where
  pub all : Family 0 dec_bool (first_all p) p.a_links v.all
  pub kids : Family 0 dec_side (first_kid p) p.cs_links v.kids
  pub hash : Family 0 dec_position p.buckets p.h_links v.bucket
  pub oper : Lists 0 (opers p) v.opers
  pub placed :
      (b : Bool) (c : ℕ)
      → In c (v.all b)
      → (is_client p c ≡ b)
        × (In c dying ⊎ In c (v.bucket (p.hv c)))
        × (p.parent c ≢ 0 → In c (v.kids (p.parent c, b)))
        × (p.is_oper c ≡ true → In c v.opers)
  pub kid :
      (s : Side) (c : ℕ)
      → In c (v.kids s)
      → (p.parent c ≡ s.0) × In c (v.all s.1) × HasChildren p v s.0 × (rank s.0 < rank c)
  pub hashed :
      (k c : ℕ) → In c (v.bucket k) → (p.hv c ≡ k) × Avoids c dying × In c (v.all (is_client p c))
  pub opered : (c : ℕ) → In c v.opers → (p.is_oper c ≡ true) × In c (v.all (is_client p c))
  pub numclients : Counts p.numclients (length (v.all true))
  pub numgservers : Counts p.numgservers (length (v.all false))
  pub numopers : Counts p.numopers (length v.opers)

-- A function of the two lists with another value at one.
abbrev pub put_bool {ℓ} : {V : Type ℓ} → (Bool → V) → Bool → V → Bool → V
put_bool f true v true = v
put_bool f true v false = f false
put_bool f false v true = f true
put_bool f false v false = v

pub put_bool-Replaced {ℓ} :
    {V : Type ℓ} (f : Bool → V) (b : Bool) (v : V) → Replaced 0 dec_bool b v f (put_bool f b v)
put_bool-Replaced f true v = record { new = refl; same = other }
  where
    other : (k : Bool) → k ≢ true → put_bool f true v k ≡ f k
    other true n = absurd (n refl)
    other false n = refl
put_bool-Replaced f false v = record { new = refl; same = other }
  where
    other : (k : Bool) → k ≢ false → put_bool f false v k ≡ f k
    other true n = refl
    other false n = absurd (n refl)

pub set_everyone-Replaced :
    (p : Clients) (b : Bool) (l : Chain)
    → Replaced 0 dec_bool b l.first (first_all p) (first_all (set_everyone b l p))
set_everyone-Replaced p true l = record { new = refl; same = other }
  where
    other : (k : Bool) → k ≢ true → first_all (set_everyone true l p) k ≡ first_all p k
    other true n = absurd (n refl)
    other false n = refl
set_everyone-Replaced p false l = record { new = refl; same = other }
  where
    other : (k : Bool) → k ≢ false → first_all (set_everyone false l p) k ≡ first_all p k
    other true n = refl
    other false n = absurd (n refl)

pub set_children-Replaced :
    (p : Clients) (b : Bool) (s : ℕ) (l : Chain)
    → s ≢ 0
    → Replaced 0 dec_side (s, b) l.first (first_kid p) (first_kid (set_children b s l p))
set_children-Replaced p true s l n = record {
  new = rw (ne→== s 0 n) (update_self p.clients s l.first);
  same = other;
}
  where
    other : (k : Side) → k ≢ (s, true) → first_kid (set_children true s l p) k ≡ first_kid p k
    other (a, false) m = refl
    other (a, true) m =
        rw (ne→== s 0 n) (update_ne p.clients s l.first a (λ e. m (ap (λ (k : ℕ). (k, true)) e)))
set_children-Replaced p false s l n = record {
  new = rw (ne→== s 0 n) (update_self p.servers s l.first);
  same = other;
}
  where
    other : (k : Side) → k ≢ (s, false) → first_kid (set_children false s l p) k ≡ first_kid p k
    other (a, true) m = refl
    other (a, false) m =
        rw (ne→== s 0 n) (update_ne p.servers s l.first a (λ e. m (ap (λ (k : ℕ). (k, false)) e)))

pub set_children-links :
    (p : Clients) (b : Bool) (s : ℕ) (l : Chain) → s ≢ 0 → (set_children b s l p).cs_links ≡ l.links
set_children-links p b s l n = rw (ne→== s 0 n) refl
