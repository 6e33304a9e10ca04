-- ===== src/Network/Whole.antt =====
-- What holds of the network of daemon/hash.c between two calls: the channels are listed and hashed, their
-- bans and their users are on well linked lists, and a channel that is not listed has none.
use efnet_services.Common.{
  ℕ, ◌≡◌, refl, sym, ◌≢◌, ◌⊎◌, inl, inr, ◌<◌, ◌≤◌, ◌%◌, List, [], ◌∷◌, ◌==◌, Bool, All, All-map,
  All-zip, Avoids, In, All-In, update, update_self, Bool-cases, eq→==, ne→==, arith,
}
use efnet_services.Run.{Text, npos}
use efnet_services.Table.{Table, home, add_record}
use efnet_services.Table.Index.{Index, add_at, add_record-Index}
use efnet_services.Network.{Net, Bans}
use efnet_services.Network.Joined.{Side, Joined, users}
use efnet_services.Network.Banned.{Banned}
use efnet_services.Network.Channels.{sihash_compute_channel, sichannel_add}

-- The records on the lists: all channels, those of each bucket, the channels of a client, the users and
-- the bans of a channel.
pub record View : Type 0 where
  pub cs : List ℕ
  pub buckets : ℕ → List ℕ
  pub on : ℕ → List ℕ
  pub of : Side → List ℕ
  pub bans : ℕ → List ℕ

module _ (to_lower : ℕ → ℕ) (same : Text → Text → Bool) where
  -- The lists of channels and of bans.
  pub record Indexed (t : Table) (hv : ℕ → ℕ) (name : ℕ → Text) (b : Bans) (v : View) : Type 0 where
    pub index : Index 0 t v.cs v.buckets
    pub positive : 0 < t.slots
    pub small : t.num ≤ npos
    pub at_hv : All (λ ch. hv ch ≡ home t ch) v.cs
    pub hashed : All (λ ch. t.hashv ch ≡ sihash_compute_channel to_lower (name ch)) v.cs
    pub within : (k : ℕ) → All (λ ch. In ch v.cs) (v.buckets k)
    pub banned : Banned same b v.bans

  pub record Whole (n : Net) (v : View) : Type 0 where
    pub indexed : Indexed n.table n.ch_hv n.ch_name n.banned v
    pub joined : Joined n.members v.on v.of
    pub idle : (ch : ℕ) → In ch v.cs ⊎ ((users v.of ch ≡ 0) × (v.bans ch ≡ []))

  Avoids-In : (p x : ℕ) (xs : List ℕ) → Avoids p xs → In x xs → p ≢ x
  Avoids-In p x xs a i = All-In (λ z. p ≢ z) x xs a i

  abbrev listed : ℕ → Net → View → View
  listed ch n v = record v {
    cs = ch ∷ v.cs;
    buckets = add_at v.buckets (sihash_compute_channel to_lower (n.ch_name ch) % n.table.slots) ch;
  }

  add_at-within :
      (cs : List ℕ) (buckets : ℕ → List ℕ) (s ch k : ℕ)
      → All (λ c. In c cs) (buckets k)
      → All (λ c. In c (ch ∷ cs)) (add_at buckets s ch k)
  add_at-within cs buckets s ch k a =
      let wide = All-map (λ c. In c cs) (λ c. In c (ch ∷ cs)) (buckets k) (λ c i. inr i) a in
      elim (Bool-cases (k == s)) [ inl y ↦ rw y (inl refl, wide) | inr n ↦ rw n wide ]

  -- A new channel is listed and hashed, and the network is well-formed again.
  pub sichannel_add-Whole :
      (n : Net) (v : View) (ch now : ℕ)
      → Whole n v
      → ch ≢ 0
      → Avoids ch v.cs
      → n.table.num < npos
      → Whole (sichannel_add to_lower ch now n) (listed ch n v)
  unfolding sichannel_add add_record
  sichannel_add-Whole n v ch now whole proper fresh room =
      let old = whole.indexed in
      let hash = sihash_compute_channel to_lower (n.ch_name ch) in
      record {
        indexed = record {
          index =
              add_record-Index 0 n.table v.cs v.buckets old.index ch hash proper fresh
                (λ k.
                  All-map (λ c. In c v.cs) (λ c. ch ≢ c) (v.buckets k)
                    (λ c i. Avoids-In ch c v.cs fresh i) (old.within k))
                old.positive room;
          positive = old.positive;
          small = omega (arith, old.small);
          at_hv = (
            rw (eq→== ch ch refl) refl,
            All-zip (λ c. ch ≢ c) (λ c. n.ch_hv c ≡ home n.table c)
                (λ c.
                  update n.ch_hv ch (hash % n.table.slots) c
                  ≡ update n.table.hashv ch hash c % n.table.slots)
                v.cs (λ c k e. rw (ne→== c ch (λ j. k (sym j))) e) fresh old.at_hv,
          );
          hashed = (
            update_self n.table.hashv ch hash,
            All-zip (λ c. ch ≢ c)
                (λ c. n.table.hashv c ≡ sihash_compute_channel to_lower (n.ch_name c))
                (λ c.
                  update n.table.hashv ch hash c ≡ sihash_compute_channel to_lower (n.ch_name c))
                v.cs (λ c k e. rw (ne→== c ch (λ j. k (sym j))) e) fresh old.hashed,
          );
          within = λ k. add_at-within v.cs v.buckets (hash % n.table.slots) ch k (old.within k);
          banned = old.banned;
        };
        joined = whole.joined;
        idle = λ k. elim (whole.idle k) [ inl i ↦ inl (inr i) | inr e ↦ inr e ];
      }
