-- ===== src/Network/Leave.antt =====
-- sichannel_del_user of daemon/hash.c on a network that is well-formed.
use efnet_services.Common.{
  ℕ, ◌≡◌, refl, sym, ap, ◌∙◌, subst, ◌≢◌, ◌⊎◌, inl, inr, List, [], ◌∷◌, ◌++◌, ◌==◌, Bool, none,
  some, map, In, In-remove, update, update_ne, Bool-cases, eq→==, ==→eq, ==_false,
}
use efnet_services.Run.{Text}
use efnet_services.Links.Family.{Replaced, In-split, In-middle}
use efnet_services.Table.{Table, remove_record}
use efnet_services.Network.{Net, Bans, client_removed, channel_removed, ban_removed}
use efnet_services.Network.Users.{is_chanop, drop_user, drop_channel}
use efnet_services.Network.Part.{leave-Joined}
use efnet_services.Network.Joined.{
  Side, users, users_other, users-In, dec_side, dec_position, put_side, put_side-Replaced,
}
use efnet_services.Network.Channels.{del_user_at}
use efnet_services.Network.Whole.{View, Indexed, Whole}
use efnet_services.Network.Delete.{sichannel_del-Deleted}

module _ (to_lower : ℕ → ℕ) (same : Text → Text → Bool) where
  pub Indexed-members :
      (t : Table) (hv : ℕ → ℕ) (name : ℕ → Text) (b : Bans) (v : View) (on : ℕ → List ℕ)
      (of : Side → List ℕ)
      → Indexed to_lower same t hv name b v
      → Indexed to_lower same t hv name b (record v { on = on; of = of })
  Indexed-members t hv name b v on of i = record {
    index = i.index;
    positive = i.positive;
    small = i.small;
    at_hv = i.at_hv;
    hashed = i.hashed;
    within = i.within;
    banned = i.banned;
  }

  module _ (n : Net) (v : View) (c x : ℕ) (us vs : List ℕ) where
    abbrev channel : ℕ
    channel = n.members.chptr x

    abbrev user : ℕ
    user = n.members.clptr x

    abbrev side : Side
    side = (channel, is_chanop (n.members.modes user))

    -- The channel stays when it has users left, and is gone with its bans when it has none.
    abbrev pub Remains : View → Type 0
    Remains w =
        ((users w.of channel ≢ 0) × (w.cs ≡ v.cs) × (w.bans ≡ v.bans))
        ⊎ ((users w.of channel ≡ 0)
            × ((xs ys : List ℕ) × (v.cs ≡ xs ++ channel ∷ ys) × (w.cs ≡ xs ++ ys))
            × (w.bans ≡ update v.bans channel []))

    -- The client's SI_CHANNELLIST `x` and its SI_CLIENTLIST are gone, and nothing else.
    abbrev pub Left : Type 0
    Left =
        (r : Net) × (w : View) × (del_user_at same x channel c n ≡ some r)
        × Whole to_lower same r w
        × (w.on ≡ update v.on c (us ++ vs))
        × ((ts ws : List ℕ) × (v.of side ≡ ts ++ user ∷ ws)
            × (w.of ≡ put_side v.of side (ts ++ ws)))
        × Remains w

    stay_idle :
        (of : Side → List ℕ) (ys : List ℕ)
        → Replaced 0 dec_side side ys v.of of
        → users v.of channel ≢ 0
        → (k : ℕ) → In k v.cs ⊎ ((users v.of k ≡ 0) × (v.bans k ≡ []))
        → In k v.cs ⊎ ((users of k ≡ 0) × (v.bans k ≡ []))
    stay_idle of ys other in_use k (inl i) = inl i
    stay_idle of ys other in_use k (inr (z, e)) = elim (dec_position k channel) [
      | inl f ↦ absurd (in_use (ap (users v.of) (sym f) ∙ z))
      | inr m ↦
          inr (users_other v.of of channel k (is_chanop (n.members.modes user)) ys other m ∙ z, e)
    ]

    gone_idle :
        (of : Side → List ℕ) (xs ys : List ℕ) (bans : ℕ → List ℕ)
        → v.cs ≡ xs ++ channel ∷ ys
        → users of channel ≡ 0
        → (k : ℕ) → In k v.cs ⊎ ((users of k ≡ 0) × (bans k ≡ []))
        → In k (xs ++ ys) ⊎ ((users of k ≡ 0) × (update bans channel [] k ≡ []))
    gone_idle of xs ys bans e empty k i = elim (dec_position k channel) [
      | inl f ↦ inr (ap (users of) f ∙ empty, rw (eq→== k channel f) refl)
      | inr m ↦ other m i
    ]
      where
        other :
            k ≢ channel
            → In k v.cs ⊎ ((users of k ≡ 0) × (bans k ≡ []))
            → In k (xs ++ ys) ⊎ ((users of k ≡ 0) × (update bans channel [] k ≡ []))
        other m (inl j) = inl (In-remove k channel xs ys m (subst (In k) e j))
        other m (inr (z, f)) = inr (z, update_ne bans channel [] k m ∙ f)

    module _ (whole : Whole to_lower same n v) (here : v.on c ≡ us ++ x ∷ vs) where
      pub del_user_at-Left : Left
      unfolding del_user_at
      del_user_at-Left =
          let is_on = subst (In x) (sym here) (In-middle x us vs) in
          let (there, back, owner) = whole.joined.partner c x is_on in
          let (ts, ws, split) = In-split user (v.of side) there in
          let on = update v.on c (us ++ vs) in
          let of = put_side v.of side (ts ++ ws) in
          let joined = leave-Joined n.members v.on v.of whole.joined c x us vs ts ws here split in
          let now = record n {
            members = drop_user user channel n.members;
            hooks = n.hooks ++ client_removed channel c user ∷ [];
          } in
          let u = joined.numclients channel in
          let in_use = users-In v.of channel (is_chanop (n.members.modes user)) user there in
          let listed : In channel v.cs = elim (whole.idle channel) [
            | inl i ↦ i
            | inr (z, e) ↦ absurd (in_use z)
          ] in
          let old = Indexed-members n.table n.ch_hv n.ch_name n.banned v on of whole.indexed in
          elim (Bool-cases (now.members.numclients channel == 0)) [
            | inr more ↦
                let stays : users of channel ≢ 0 =
                  λ z. ==_false (now.members.numclients channel) 0 more (u.0 ∙ z) in
                (
                  record now { members = drop_channel x c now.members },
                  record v { on = on; of = of },
                  rw (more, del_user_at) refl,
                  record {
                    indexed = old;
                    joined = joined;
                    idle = λ k.
                        stay_idle of (ts ++ ws) (put_side-Replaced v.of side (ts ++ ws)) in_use k
                          (whole.idle k);
                  },
                  refl,
                  (ts, ws, split, refl),
                  inl (stays, refl, refl),
                )
            | inl none_left ↦
                let empty : users of channel ≡ 0 =
                  sym u.0 ∙ ==→eq (now.members.numclients channel) 0 none_left in
                let (xs, ys, buckets, b, parts, run, indexed) =
                  sichannel_del-Deleted to_lower same now v channel whole.indexed listed
                    (==→eq (now.members.numclients channel) 0 none_left) in
                (
                  record now {
                    table = remove_record 0 channel n.table;
                    banned = b;
                    hooks =
                        now.hooks
                        ++ map (ban_removed channel none) (v.bans channel)
                        ++ channel_removed channel ∷ [];
                    members = drop_channel x c now.members;
                  },
                  record {
                    cs = xs ++ ys;
                    buckets = buckets;
                    on = on;
                    of = of;
                    bans = update v.bans channel [];
                  },
                  rw (none_left, run, del_user_at) refl,
                  record {
                    indexed =
                        Indexed-members (remove_record 0 channel n.table) n.ch_hv n.ch_name b
                          (record v {
                            cs = xs ++ ys;
                            buckets = buckets;
                            bans = update v.bans channel [];
                          })
                          on of indexed;
                    joined = joined;
                    idle = λ k. gone_idle of xs ys v.bans parts empty k (
                        stay_idle of (ts ++ ws) (put_side-Replaced v.of side (ts ++ ws)) in_use k
                          (whole.idle k));
                  },
                  refl,
                  (ts, ws, split, refl),
                  inr (empty, (xs, ys, parts, refl), refl),
                )
          ]
