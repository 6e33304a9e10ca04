-- ===== src/Network/LeaveAll.antt =====
-- sichannel_del_user of daemon/hash.c by a channel's position, and siclient_del_channels.
use efnet_services.Common.{
  ℕ, zero, suc, ◌≡◌, refl, sym, ap, ◌∙◌, subst, ◌≢◌, ◌⊎◌, inl, inr, ◌<◌, List, [], ◌∷◌, ◌++◌, ◌==◌,
  if◌then◌else◌, Bool, false, some, length, head_or, All, All-map, In, All-In, update, update_self,
  update_own, update_twice, eq→==, ne→==, ==→eq, ==_false, arith,
}
use efnet_services.Run.{Text}
use efnet_services.Links.{scan}
use efnet_services.Links.Scan.{Found, scan-Found}
use efnet_services.Links.Family.{In-middle, family-proper}
use efnet_services.Network.{Net}
use efnet_services.Network.Users.{siclient_find_channel}
use efnet_services.Network.Joined.{Side, dec_position}
use efnet_services.Network.Channels.{
  del_user_at, sichannel_del_user, del_channels_loop, siclient_del_channels,
}
use efnet_services.Network.Whole.{View, Whole}
use efnet_services.Network.Leave.{Left, del_user_at-Left}

module _ (to_lower : ℕ → ℕ) (same : Text → Text → Bool) where
  -- A record of a list of channels is not NULL.
  on-proper : (n : Net) (v : View) (c x : ℕ) → Whole to_lower same n v → In x (v.on c) → x ≢ 0
  on-proper n v c x whole i z =
      let m = n.members in
      All-In (λ k. 0 ≢ k) x (v.on c)
        (family-proper 0 dec_position m.channels m.channel_links v.on whole.joined.by_client c) i
        (sym z)

  -- The record at which the search stops: the client's first for the channel, or NULL.
  abbrev pub GoesOff : ℕ → ℕ → Net → View → Type 0
  GoesOff ch c n v =
      (All (λ x. n.members.chptr x ≢ ch) (v.on c) × (sichannel_del_user same ch c 0 n ≡ some n))
      ⊎ ((us : List ℕ) × (x : ℕ) × (vs : List ℕ) × (v.on c ≡ us ++ x ∷ vs)
          × (n.members.chptr x ≡ ch)
          × All (λ z. n.members.chptr z ≢ ch) us
          × (sichannel_del_user same ch c 0 n ≡ del_user_at same x (n.members.chptr x) c n)
          × Left to_lower same n v c x us vs)

  -- On a well-formed network the search for the channel of a client ends: when the client is not on the
  -- channel nothing is done, and when it is, it leaves by the first record for the channel: the
  -- channel stays when it has users left, and else is deleted with its bans.
  pub sichannel_del_user-GoesOff :
      (n : Net) (v : View) (ch c : ℕ) → Whole to_lower same n v → GoesOff ch c n v
  unfolding sichannel_del_user siclient_find_channel
  sichannel_del_user-GoesOff n v ch c whole =
      let m = n.members in
      let own = whole.joined.by_client.lists c in
      let (x, e, found) =
        scan-Found 0 (λ x. m.chptr x == ch) m.channel_links (suc (m.numchannels c)) 0 (v.on c)
          (omega (arith, whole.joined.numchannels c)) own.linked in
      let starts : m.channels c ≡ head_or 0 (v.on c) = own.starts in
      let run : siclient_find_channel c ch m ≡ some x =
        ap (λ (k : ℕ). scan 0 (suc (m.numchannels c)) (λ x. m.chptr x == ch) m.channel_links k)
          starts
        ∙ e in
      go x found (rw (run, sichannel_del_user) refl)
    where
      go :
          (x : ℕ)
          → Found 0 (λ x. n.members.chptr x == ch) (v.on c) x
          → sichannel_del_user same ch c 0 n
            ≡ (if x == 0 then some n else del_user_at same x ch c n)
          → GoesOff ch c n v
      go x (inl (z, f)) run = inl (
        All-map (λ x. (n.members.chptr x == ch) ≡ false) (λ x. n.members.chptr x ≢ ch) (v.on c)
            (λ x h. ==_false (n.members.chptr x) ch h) f,
        run ∙ rw (eq→== x 0 z) refl,
      )
      go x (inr (us, vs, e, y, f)) run =
          let is : n.members.chptr x ≡ ch = ==→eq (n.members.chptr x) ch y in
          let proper = on-proper n v c x whole (subst (In x) (sym e) (In-middle x us vs)) in
          inr (
            us,
            x,
            vs,
            e,
            is,
            All-map (λ x. (n.members.chptr x == ch) ≡ false) (λ x. n.members.chptr x ≢ ch) us
                (λ x h. ==_false (n.members.chptr x) ch h) f,
            run ∙ rw (ne→== x 0 proper) refl ∙ ap (λ (k : ℕ). del_user_at same x k c n) (sym is),
            del_user_at-Left to_lower same n v c x us vs whole e,
          )

  -- The client is on no channel, and no channel has it.
  abbrev pub Alone : ℕ → Net → View → Net → View → Type 0
  Alone c n v r w =
      Whole to_lower same r w
      × (w.on ≡ update v.on c [])
      × (r.members.numchannels c ≡ 0)
      × ((s : Side) (y : ℕ) → In y (w.of s) → r.members.cptr y ≢ c)

  Alone-none :
      (c : ℕ) (n : Net) (v : View) → Whole to_lower same n v → v.on c ≡ [] → Alone c n v n v
  Alone-none c n v whole e = (
    whole,
    sym (ap (update v.on c) (sym e) ∙ update_own v.on c),
    (whole.joined.numchannels c).0 ∙ ap length e,
    λ s y i k. subst (In (n.members.chlptr y)) (ap v.on k ∙ e) (whole.joined.back s y i).0,
  )

  del_channels-Alone :
      (fuel : ℕ) (c : ℕ) (xs : List ℕ) (n : Net) (v : View)
      → Whole to_lower same n v
      → v.on c ≡ xs
      → length xs < fuel
      → (r : Net) × (w : View) × (del_channels_loop same fuel c n ≡ some r) × Alone c n v r w
  unfolding del_channels_loop
  del_channels-Alone zero c xs n v whole here enough = absurd (omega arith)
  del_channels-Alone (suc fuel) c [] n v whole here enough =
      let first : n.members.channels c ≡ 0 =
        (whole.joined.by_client.lists c).starts ∙ ap (head_or 0) here in
      let alone = Alone-none c n v whole here in
      (n, v, rw (del_channels_loop, first, alone.2) refl, alone)
  del_channels-Alone (suc fuel) c (x ∷ xs) n v whole here enough =
      let first : n.members.channels c ≡ x =
        (whole.joined.by_client.lists c).starts ∙ ap (head_or 0) here in
      let proper = on-proper n v c x whole (subst (In x) (sym here) (inl refl)) in
      let some_on : n.members.numchannels c ≢ 0 =
        λ z. omega (arith, (whole.joined.numchannels c).0, ap length here) in
      let (r, w, run, after, on, split, remains) =
        del_user_at-Left to_lower same n v c x [] xs whole here in
      let (q, u, rest, alone) =
        del_channels-Alone fuel c xs r w after
          (ap (λ (f : ℕ → List ℕ). f c) on ∙ update_self v.on c xs) (omega arith) in
      let m = n.members in
      let one : sichannel_del_user same (m.chptr x) c x n ≡ some r =
        rw (sichannel_del_user, ne→== x 0 proper) run in
      let this =
        subst (λ (k : ℕ). sichannel_del_user same (m.chptr k) c k n ≡ some r) (sym first) one in
      let listed : (m.channels c == 0) ≡ false = rw first (ne→== x 0 proper) in
      (
        q,
        u,
        rw (del_channels_loop, listed, ne→== (m.numchannels c) 0 some_on, this) rest,
        (
          alone.0,
          alone.1 ∙ ap (λ (f : ℕ → List ℕ). update f c []) on ∙ update_twice v.on c xs [],
          alone.2,
          alone.3,
        ),
      )

  -- On a well-formed network siclient_del_channels ends and none of its assertions fails, nor do those of
  -- sichannel_del: the client is then on no channel, no channel has it as a user, the other clients
  -- keep theirs, and the network is well-formed.
  pub siclient_del_channels-Alone :
      (n : Net) (v : View) (c : ℕ)
      → Whole to_lower same n v
      → (r : Net) × (w : View) × (siclient_del_channels same c n ≡ some r) × Alone c n v r w
  unfolding siclient_del_channels
  siclient_del_channels-Alone n v c whole =
      del_channels-Alone (suc (n.members.numchannels c)) c (v.on c) n v whole refl
        (omega (arith, whole.joined.numchannels c))
