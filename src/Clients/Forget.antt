-- ===== src/Clients/Forget.antt =====
-- A record that siclient_free of daemon/hash.c takes out of the hash table.
use efnet_services.Common.{ℕ, ◌≡◌, ◌⊎◌, inl, inr, List, ◌∷◌, ◌++◌, In, update}
use efnet_services.Links.{del_from_list}
use efnet_services.Links.Family.{Replaced, del_from_list-Family, removed-In, removed-keeps}
use efnet_services.Network.Joined.{dec_position, update-Replaced}
use efnet_services.Clients.{Clients}
use efnet_services.Clients.Lists.{bucket, hash_del}
use efnet_services.Clients.Free.{forget}
use efnet_services.Clients.Formed.{View, Formed}

module _ (rank : ℕ → ℕ) (dying : List ℕ) (p : Clients) (v : View) (c : ℕ) where
  module _ (formed : Formed rank dying p v) (us vs : List ℕ)
      (here : v.bucket (p.hv c) ≡ us ++ c ∷ vs) where
    abbrev unhashed : View
    unhashed = record v { bucket = update v.bucket (p.hv c) (us ++ vs) }

    off_bucket : Replaced 0 dec_position (p.hv c) (us ++ vs) v.bucket unhashed.bucket
    off_bucket = update-Replaced v.bucket (p.hv c) (us ++ vs)

    -- Out of the hash table, the record is one of those that are freed.
    pub forget-Formed : Formed rank (c ∷ dying) (forget c p) unhashed
    unfolding forget hash_del
    forget-Formed = record {
      all = formed.all;
      kids = formed.kids;
      hash =
          del_from_list-Family 0 dec_position p.buckets
            (update p.buckets (p.hv c) (del_from_list 0 c (bucket (p.hv c) p)).first) p.h_links
            v.bucket unhashed.bucket (p.hv c) formed.hash c us vs here
            (update-Replaced p.buckets (p.hv c) (del_from_list 0 c (bucket (p.hv c) p)).first)
            off_bucket;
      oper = formed.oper;
      placed = λ b x i. let (k, d, g, o) = formed.placed b x i in (k, dead_or_hashed x d, g, o);
      kid = formed.kid;
      hashed = λ k x i.
          let (j, n) =
            removed-In 0 dec_position p.buckets p.buckets p.h_links v.bucket unhashed.bucket
              (p.hv c) formed.hash c x us vs k here off_bucket i in
          let (a, d, b) = formed.hashed k x j in (a, (n, d), b);
      opered = formed.opered;
      numclients = formed.numclients;
      numgservers = formed.numgservers;
      numopers = formed.numopers;
    }
      where
        dead_or_hashed :
            (x : ℕ)
            → In x dying ⊎ In x (v.bucket (p.hv x))
            → In x (c ∷ dying) ⊎ In x (unhashed.bucket (p.hv x))
        dead_or_hashed x (inl i) = inl (inr i)
        dead_or_hashed x (inr i) = elim (dec_position x c) [
          | inl e ↦ inl (inl e)
          | inr n ↦ inr (
              removed-keeps 0 dec_position p.buckets p.buckets p.h_links v.bucket unhashed.bucket
                (p.hv c) formed.hash c x us vs (p.hv x) here off_bucket n i)
        ]
