-- ===== src/Network/Join.antt =====
-- The lists of daemon/hash.c still match when a client joins a channel.
use efnet_services.Common.{
  ℕ, ◌≡◌, refl, sym, ◌∙◌, ◌≢◌, inl, inr, ◌<◌, List, ◌∷◌, ◌==◌, Avoids, In, All-In, update,
  Bool-cases, eq→==, ne→==, ==→eq, ==_false, arith,
}
use efnet_services.Links.{add_to_list}
use efnet_services.Links.Family.{Replaced, add_to_list-Family, added-In, added-new, added-keeps}
use efnet_services.Run.{npos}
use efnet_services.Network.{Members}
use efnet_services.Network.Users.{is_chanop, users_of, channels_of, add_member}
use efnet_services.Network.Joined.{
  Side, dec_position, dec_side, first_user, Joined, update-Replaced, put_side, put_side-Replaced,
  set_users-Replaced, users_other, users_own,
}

-- A record of the list is none that the list avoids.
In-ne : (x y : ℕ) (xs : List ℕ) → Avoids x xs → In y xs → y ≢ x
In-ne x y xs a i e = All-In (λ z. x ≢ z) y xs a i (sym e)

module _ (m : Members) (on : ℕ → List ℕ) (of : Side → List ℕ) (joined : Joined m on of)
    (x y ch c modes : ℕ) (x_proper : x ≢ 0) (y_proper : y ≢ 0) (x_new : (k : ℕ) → Avoids x (on k))
    (y_new : (s : Side) → Avoids y (of s)) where
  abbrev joined_on : ℕ → List ℕ
  joined_on = update on c (x ∷ on c)

  abbrev side : Side
  side = (ch, is_chanop modes)

  abbrev joined_of : Side → List ℕ
  joined_of = put_side of side (y ∷ of side)

  abbrev after : Members
  after = add_member x y ch c modes m

  wider_on : Replaced 0 dec_position c (x ∷ on c) on joined_on
  wider_on = update-Replaced on c (x ∷ on c)

  wider_of : Replaced 0 dec_side side (y ∷ of side) of joined_of
  wider_of = put_side-Replaced of side (y ∷ of side)

  join_partner :
      (k z : ℕ)
      → In z (joined_on k)
      → In (after.clptr z) (joined_of (after.chptr z, is_chanop (after.modes (after.clptr z))))
        × (after.chlptr (after.clptr z) ≡ z)
        × (after.cptr (after.clptr z) ≡ k)
  unfolding add_member
  join_partner k z i =
      elim (added-In 0 dec_position m.channels m.channels m.channel_links on joined_on c
        joined.by_client x z k wider_on i) [
          | inl (e, f) ↦
              rw (e, f, eq→== x x refl, eq→== y y refl)
                (
                  added-new 0 dec_side (first_user m) (first_user m) m.client_links of joined_of
                      side joined.by_channel y wider_of,
                  refl,
                  refl,
                )
          | inr h ↦
              let (p, q, r) = joined.partner k z h in
              rw
                (
                  ne→== z x (In-ne x z (on k) (x_new k) h),
                  ne→== (m.clptr z) y (
                      In-ne y (m.clptr z) (of (m.chptr z, is_chanop (m.modes (m.clptr z))))
                        (y_new (m.chptr z, is_chanop (m.modes (m.clptr z)))) p),
                )
                (
                  added-keeps 0 dec_side (first_user m) (first_user m) m.client_links of joined_of
                      side joined.by_channel y (m.clptr z)
                      (m.chptr z, is_chanop (m.modes (m.clptr z))) wider_of p,
                  q,
                  r,
                )
        ]

  join_back :
      (s : Side) (z : ℕ)
      → In z (joined_of s)
      → In (after.chlptr z) (joined_on (after.cptr z))
        × (after.clptr (after.chlptr z) ≡ z)
        × (s ≡ (after.chptr (after.chlptr z), is_chanop (after.modes z)))
  unfolding add_member
  join_back s z i =
      elim (added-In 0 dec_side (first_user m) (first_user m) m.client_links of joined_of side
        joined.by_channel y z s wider_of i) [
          | inl (e, f) ↦
              rw (e, f, eq→== y y refl, eq→== x x refl)
                (
                  added-new 0 dec_position m.channels m.channels m.channel_links on joined_on c
                      joined.by_client x wider_on,
                  refl,
                  refl,
                )
          | inr h ↦
              let (p, q, r) = joined.back s z h in
              rw
                (
                  ne→== z y (In-ne y z (of s) (y_new s) h),
                  ne→== (m.chlptr z) x (In-ne x (m.chlptr z) (on (m.cptr z)) (x_new (m.cptr z)) p),
                )
                (
                  added-keeps 0 dec_position m.channels m.channels m.channel_links on joined_on c
                      joined.by_client x (m.chlptr z) (m.cptr z) wider_on p,
                  q,
                  r,
                )
        ]

  -- Two new records put a client on a channel, and everything matches again.
  pub add_member-Joined :
      m.numchannels c < npos
      → m.numclients ch < npos
      → Joined
          (add_member x y ch c modes m)
          (update on c (x ∷ on c))
          (put_side of (ch, is_chanop modes) (y ∷ of (ch, is_chanop modes)))
  unfolding add_member
  add_member-Joined room_on room_of = record {
    by_client =
        add_to_list-Family 0 dec_position m.channels after.channels m.channel_links on joined_on c
          joined.by_client x x_proper x_new
          (update-Replaced m.channels c (add_to_list 0 x (channels_of c m)).first) wider_on;
    by_channel =
        add_to_list-Family 0 dec_side (first_user m) (first_user after) m.client_links of joined_of
          side joined.by_channel y y_proper y_new
          (set_users-Replaced m ch (is_chanop modes)
            (add_to_list 0 y (users_of ch (is_chanop modes) m)))
          wider_of;
    partner = join_partner;
    back = join_back;
    numchannels = λ k. elim (Bool-cases (k == c)) [
      | inl e ↦ rw e (omega (arith, joined.numchannels c), omega (arith, joined.numchannels c))
      | inr n ↦ rw n (joined.numchannels k)
    ];
    numclients = λ k. elim (Bool-cases (k == ch)) [
      | inl e ↦
          rw (e, ==→eq k ch e)
            (
              omega (
                arith,
                (joined.numclients ch).0,
                users_own of joined_of ch (is_chanop modes) (y ∷ of side) wider_of,
              ),
              omega arith,
            )
      | inr n ↦ rw n (
        (joined.numclients k).0
            ∙ sym (
                users_other of joined_of ch k (is_chanop modes) (y ∷ of side) wider_of
                  (==_false k ch n)),
        (joined.numclients k).1,
      )
    ];
  }
