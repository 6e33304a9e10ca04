-- ===== src/Network/Starts.antt =====
-- The network of daemon/hash.c at the start, and the changes that keep it well-formed.
use efnet_services.Common.{
  ℕ, zero, suc, ◌≡◌, refl, sym, ◌∙◌, subst, ◌≢◌, ◌⊎◌, inl, inr, ◌<◌, List, [], ◌∷◌, if◌then◌else◌,
  Bool, true, false, some, All-zip, Avoids, In, sum_upto, update, update_ne, eq→==, ne→==, arith,
}
use efnet_services.Run.{Text, npos}
use efnet_services.Links.{Links}
use efnet_services.Links.Insert.{Lists}
use efnet_services.Links.Reaches.{Reaches, unreached-Avoids, reached-In}
use efnet_services.Links.Family.{Family}
use efnet_services.Network.{Net, Bans, Hook}
use efnet_services.Network.Users.{is_chanop, users_of}
use efnet_services.Network.Join.{add_member-Joined}
use efnet_services.Network.Joined.{
  Side, dec_position, dec_side, users, users_other, put_side, put_side-Replaced,
}
use efnet_services.Network.Banned.{Banned}
use efnet_services.Network.Channels.{channel_hashsize, sihash_compute_channel, sichannel_add_user}
use efnet_services.Network.Whole.{View, Whole}
use efnet_services.Network.Leave.{Indexed-members}
use efnet_services.Network.Steps.{no_links, first_net, OnList, NewPair, named}

sum_zero : (n : ℕ) → sum_upto n (λ k. 0) ≡ 0
sum_zero zero = refl
sum_zero (suc n) = omega (arith, sum_zero n)

module _ (to_lower : ℕ → ℕ) (same : Text → Text → Bool) where
  abbrev pub W : Net → View → Type 0
  W = Whole to_lower same

  abbrev pub no_view : View
  no_view = record { cs = []; buckets = λ k. []; on = λ c. []; of = λ s. []; bans = λ ch. [] }

  no_lists :
      {K : Type 0} (dec : (j k : K) → (j ≡ k) ⊎ (j ≢ k)) → Family 0 dec (λ k. 0) no_links (λ k. [])
  no_lists dec = record {
    lists = λ k. record { starts = refl; linked = tt; distinct = tt };
    apart = λ j k n. tt;
  }

  no_users : Family 0 dec_side (λ s. if s.1 then 0 else 0) no_links (λ s. [])
  no_users = record {
    lists = λ s. record { starts = zero_either s.1; linked = tt; distinct = tt };
    apart = λ j k n. tt;
  }
    where
      zero_either : (b : Bool) → ◌≡◌ {A = ℕ} (if b then 0 else 0) 0
      zero_either true = refl
      zero_either false = refl

  pub first_net-Whole : W first_net no_view
  first_net-Whole = record {
    indexed = record {
      index = record {
        all = record { starts = refl; linked = tt; distinct = tt };
        bucket = λ hv. record { starts = refl; linked = tt; distinct = tt };
        at_home = λ hv. tt;
        cover = tt;
        counted = sym (sum_zero channel_hashsize);
      };
      positive = omega arith;
      small = omega arith;
      at_hv = tt;
      hashed = tt;
      within = λ k. tt;
      banned = record {
        lists = no_lists dec_position;
        numbans = λ ch. (refl, omega arith);
        unlike = λ ch. tt;
      };
    };
    joined = record {
      by_client = no_lists dec_position;
      by_channel = no_users;
      partner = λ c x i. absurd i;
      back = λ s y i. absurd i;
      numchannels = λ c. (refl, omega arith);
      numclients = λ ch. (refl, omega arith);
    };
    idle = λ ch. inr (refl, refl);
  }

  pub named-Whole :
      (n : Net) (v : View) (ch : ℕ) (name : Text) → W n v → Avoids ch v.cs → W (named ch name n) v
  named-Whole n v ch name whole fresh =
      let old = whole.indexed in
      record {
        indexed = record {
          index = old.index;
          positive = old.positive;
          small = old.small;
          at_hv = old.at_hv;
          hashed =
              All-zip (λ c. ch ≢ c)
                (λ c. n.table.hashv c ≡ sihash_compute_channel to_lower (n.ch_name c))
                (λ c.
                  n.table.hashv c ≡ sihash_compute_channel to_lower (update n.ch_name ch name c))
                v.cs (λ c k e. rw (ne→== c ch (λ j. k (sym j))) e) fresh old.hashed;
          within = old.within;
          banned = old.banned;
        };
        joined = whole.joined;
        idle = whole.idle;
      }

  pub unlisted :
      (l : Links) (x first : ℕ) (xs : List ℕ)
      → (Reaches 0 l x first → ⊥)
      → Lists 0 (record { first = first; links = l }) xs
      → Avoids x xs
  unlisted l x first xs no_way h =
      unreached-Avoids 0 l x 0 xs (λ r. no_way (subst (Reaches 0 l x) (sym h.starts) r)) h.linked

  pub OnList-In : (n : Net) (v : View) (ch : ℕ) → W n v → OnList ch n → In ch v.cs
  OnList-In n v ch whole (proper, r) =
      let all = whole.indexed.index.all in
      reached-In 0 n.table.all_links ch 0 n.table.first v.cs proper all.starts all.linked r

  -- A client joins a listed channel.
  pub add_user-Whole :
      (n : Net) (v : View) (x y ch c modes : ℕ) (is_new : Bool)
      → W n v
      → NewPair x y n
      → OnList ch n
      → n.members.numchannels c < npos
      → n.members.numclients ch < npos
      → (w : View) × W (sichannel_add_user (some x) (some y) ch c modes is_new n).1 w
  unfolding sichannel_add_user
  add_user-Whole n v x y ch c modes is_new whole (x_proper, y_proper, x_new, y_new) on_list room_on
        room_of =
      let op = is_chanop modes in
      let on = update v.on c (x ∷ v.on c) in
      let of = put_side v.of (ch, op) (y ∷ v.of (ch, op)) in
      let x_free : (k : ℕ) → Avoids x (v.on k) = λ k.
        unlisted n.members.channel_links x (n.members.channels k) (v.on k) (x_new k)
          (whole.joined.by_client.lists k) in
      let y_free : (s : Side) → Avoids y (v.of s) = λ s.
        unlisted n.members.client_links y (users_of s.0 s.1 n.members).first (v.of s)
          (y_new s.0 s.1) (whole.joined.by_channel.lists s) in
      let joined =
        add_member-Joined n.members v.on v.of whole.joined x y ch c modes x_proper y_proper x_free
          y_free room_on room_of in
      (
        record v { on = on; of = of },
        record {
          indexed =
              Indexed-members to_lower same n.table n.ch_hv n.ch_name n.banned v on of
                whole.indexed;
          joined = joined;
          idle = λ k. elim (dec_position k ch) [
            | inl e ↦ inl (subst (λ j. In j v.cs) (sym e) (OnList-In n v ch whole on_list))
            | inr m ↦ elim (whole.idle k) [
              | inl i ↦ inl i
              | inr (z, e) ↦ inr (
                users_other v.of of ch k op (y ∷ v.of (ch, op))
                      (put_side-Replaced v.of (ch, op) (y ∷ v.of (ch, op))) m
                    ∙ z,
                e,
              )
            ]
          ];
        },
      )

  -- Another list of bans for one channel, listed unless the list is empty.
  pub bans-Whole :
      (n : Net) (v : View) (b : Bans) (hooks : List Hook) (ch : ℕ) (ps : List ℕ)
      → W n v
      → Banned same b (update v.bans ch ps)
      → In ch v.cs ⊎ (ps ≡ [])
      → W (record n { banned = b; hooks = hooks }) (record v { bans = update v.bans ch ps })
  bans-Whole n v b hooks ch ps whole banned listed =
      let old = whole.indexed in
      record {
        indexed = record {
          index = old.index;
          positive = old.positive;
          small = old.small;
          at_hv = old.at_hv;
          hashed = old.hashed;
          within = old.within;
          banned = banned;
        };
        joined = whole.joined;
        idle = λ k. elim (dec_position k ch) [
          | inl e ↦ at_key e listed (whole.idle k)
          | inr m ↦ elim (whole.idle k) [
            | inl i ↦ inl i
            | inr (z, e) ↦ inr (z, update_ne v.bans ch ps k m ∙ e)
          ]
        ];
      }
    where
      at_key :
          {k : ℕ}
          → k ≡ ch
          → In ch v.cs ⊎ (ps ≡ [])
          → In k v.cs ⊎ ((users v.of k ≡ 0) × (v.bans k ≡ []))
          → In k v.cs ⊎ ((users v.of k ≡ 0) × (update v.bans ch ps k ≡ []))
      at_key e l (inl i) = inl i
      at_key {k} e (inl i) (inr z) = inl (subst (λ j. In j v.cs) (sym e) i)
      at_key {k} e (inr f) (inr (z, g)) = inr (z, rw (eq→== k ch e) f)
