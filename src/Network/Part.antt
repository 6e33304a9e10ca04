-- ===== src/Network/Part.antt =====
-- The lists of daemon/hash.c still match when a client leaves a channel.
use efnet_services.Common.{
  ℕ, ◌≡◌, sym, ap, ◌∙◌, subst, inl, inr, List, ◌∷◌, ◌++◌, ◌==◌, length, length-append, In, update,
  Bool-cases, ==→eq, ==_false, arith,
}
use efnet_services.Links.{del_from_list}
use efnet_services.Links.Family.{
  Replaced, In-middle, del_from_list-Family, removed-In, removed-keeps,
}
use efnet_services.Network.{Members}
use efnet_services.Network.Users.{is_chanop, users_of, channels_of, drop_user, drop_channel}
use efnet_services.Network.Joined.{
  Side, dec_position, dec_side, first_user, Joined, update-Replaced, put_side, put_side-Replaced,
  set_users-Replaced, users_other, users_own,
}

-- The client `c` leaves the channel of its SI_CHANNELLIST `x`.
module _ (m : Members) (on : ℕ → List ℕ) (of : Side → List ℕ) (joined : Joined m on of) (c x : ℕ)
    (us vs ts ws : List ℕ) where
  abbrev user : ℕ
  user = m.clptr x

  abbrev channel : ℕ
  channel = m.chptr x

  abbrev left_side : Side
  left_side = (channel, is_chanop (m.modes user))

  abbrev left_on : ℕ → List ℕ
  left_on = update on c (us ++ vs)

  abbrev left_of : Side → List ℕ
  left_of = put_side of left_side (ts ++ ws)

  module _ (here : on c ≡ us ++ x ∷ vs) (there : of left_side ≡ ts ++ user ∷ ws) where
    fewer_on : Replaced 0 dec_position c (us ++ vs) on left_on
    fewer_on = update-Replaced on c (us ++ vs)

    fewer_of : Replaced 0 dec_side left_side (ts ++ ws) of left_of
    fewer_of = put_side-Replaced of left_side (ts ++ ws)

    points_back : m.chlptr user ≡ x
    points_back = (joined.partner c x (subst (In x) (sym here) (In-middle x us vs))).1

    leave_partner :
        (k z : ℕ)
        → In z (left_on k)
        → In (m.clptr z) (left_of (m.chptr z, is_chanop (m.modes (m.clptr z))))
          × (m.chlptr (m.clptr z) ≡ z)
          × (m.cptr (m.clptr z) ≡ k)
    leave_partner k z i =
        let (h, n) =
          removed-In 0 dec_position m.channels m.channels m.channel_links on left_on c
            joined.by_client x z us vs k here fewer_on i in
        let (p, q, r) = joined.partner k z h in
        (
          removed-keeps 0 dec_side (first_user m) (first_user m) m.client_links of left_of left_side
              joined.by_channel user (m.clptr z) ts ws (m.chptr z, is_chanop (m.modes (m.clptr z)))
              there fewer_of (λ e. n (sym q ∙ ap m.chlptr e ∙ points_back)) p,
          q,
          r,
        )

    leave_back :
        (s : Side) (z : ℕ)
        → In z (left_of s)
        → In (m.chlptr z) (left_on (m.cptr z))
          × (m.clptr (m.chlptr z) ≡ z)
          × (s ≡ (m.chptr (m.chlptr z), is_chanop (m.modes z)))
    leave_back s z i =
        let (h, n) =
          removed-In 0 dec_side (first_user m) (first_user m) m.client_links of left_of left_side
            joined.by_channel user z ts ws s there fewer_of i in
        let (p, q, r) = joined.back s z h in
        (
          removed-keeps 0 dec_position m.channels m.channels m.channel_links on left_on c
              joined.by_client x (m.chlptr z) us vs (m.cptr z) here fewer_on
              (λ e. n (sym q ∙ ap m.clptr e)) p,
          q,
          r,
        )

    -- A client that leaves a channel is off both lists, and everything matches again.
    pub leave-Joined :
        Joined (drop_channel x c (drop_user (m.clptr x) (m.chptr x) m)) left_on left_of
    unfolding drop_channel drop_user
    leave-Joined = record {
      by_client =
          del_from_list-Family 0 dec_position m.channels
            (update m.channels c (del_from_list 0 x (channels_of c m)).first) m.channel_links on
            left_on c joined.by_client x us vs here
            (update-Replaced m.channels c (del_from_list 0 x (channels_of c m)).first) fewer_on;
      by_channel =
          del_from_list-Family 0 dec_side (first_user m) (first_user (drop_user user channel m))
            m.client_links of left_of left_side joined.by_channel user ts ws there
            (set_users-Replaced m channel (is_chanop (m.modes user))
              (del_from_list 0 user (users_of channel (is_chanop (m.modes user)) m)))
            fewer_of;
      partner = leave_partner;
      back = leave_back;
      numchannels = λ k. elim (Bool-cases (k == c)) [
        | inl e ↦ rw e (
          omega (
            arith,
            joined.numchannels c,
            ap length here,
            length-append us vs,
            length-append us (x ∷ vs),
          ),
          omega (arith, joined.numchannels c),
        )
        | inr n ↦ rw n (joined.numchannels k)
      ];
      numclients = λ k. elim (Bool-cases (k == channel)) [
        | inl e ↦
            rw (e, ==→eq k channel e)
              (
                omega (
                  arith,
                  joined.numclients channel,
                  users_own of left_of channel (is_chanop (m.modes user)) (ts ++ ws) fewer_of,
                  ap length there,
                  length-append ts ws,
                  length-append ts (user ∷ ws),
                ),
                omega arith,
              )
        | inr n ↦ rw n (
          (joined.numclients k).0
              ∙ sym (
                  users_other of left_of channel k (is_chanop (m.modes user)) (ts ++ ws) fewer_of
                    (==_false k channel n)),
          (joined.numclients k).1,
        )
      ];
    }
