-- ===== src/Network/Reached.antt =====
-- Every network that the calls of daemon/hash.c lead to is well-formed.
use efnet_services.Common.{
  ℕ, ◌≡◌, sym, ap, ◌∙◌, subst, ◌≢◌, inl, inr, ◌∷◌, Bool, some, filter, Avoids, update,
}
use efnet_services.Run.{Text}
use efnet_services.Network.{Net, Code}
use efnet_services.Network.Unban.{
  stays, with_ban, with_ban, sichannel_add_ban-BanAdded, sichannel_del_ban-Banned,
}
use efnet_services.Network.Whole.{View, Whole, sichannel_add-Whole}
use efnet_services.Network.LeaveAll.{sichannel_del_user-GoesOff, siclient_del_channels-Alone}
use efnet_services.Network.Steps.{
  named, Step, Reached, add_channel, add_user, del_user, del_channels, add_ban, del_ban, start,
  step,
}
use efnet_services.Network.Starts.{
  no_view, first_net-Whole, named-Whole, unlisted, OnList-In, add_user-Whole, bans-Whole,
}

some-eq : {A : Type 0} {a b : A} → some a ≡ some b → a ≡ b
some-eq e = cc

module _ (to_lower : ℕ → ℕ) (same : Text → Text → Bool) where
  abbrev W : Net → View → Type 0
  W = Whole to_lower same

  abbrev snd : Code × Net → Net
  snd p = p.1

  -- A call on a well-formed network leaves a well-formed one.
  Step-Whole : (n r : Net) (v : View) → W n v → Step to_lower same n r → (w : View) × W r w
  Step-Whole n r v whole (add_channel ch now name (proper, new) room) =
      let all = whole.indexed.index.all in
      let fresh = unlisted to_lower same n.table.all_links ch n.table.first v.cs new all in
      (
        _,
        sichannel_add-Whole to_lower same (named ch name n) v ch now
            (named-Whole to_lower same n v ch name whole fresh) proper fresh room,
      )
  Step-Whole n r v whole (add_user x y ch c modes is_new new on_list room_on room_of) =
      add_user-Whole to_lower same n v x y ch c modes is_new whole new on_list room_on room_of
  Step-Whole n r v whole (del_user ch c q e) =
      elim (sichannel_del_user-GoesOff to_lower same n v ch c whole) [
        | inl (off, run) ↦ (v, subst (λ t. W t v) (some-eq (sym run ∙ e)) whole)
        | inr (us, x, vs, split, is, first, run, (s, w, left, after, on, of, remains)) ↦
            (w, subst (λ t. W t w) (some-eq (sym (run ∙ left) ∙ e)) after)
      ]
  Step-Whole n r v whole (del_channels c q e) =
      let (s, w, run, (after, on, none_on, off)) =
        siclient_del_channels-Alone to_lower same n v c whole in
      (w, subst (λ t. W t w) (some-eq (sym run ∙ e)) after)
  Step-Whole n r v whole (add_ban memory ch from string now code q new on_list room e) =
      let free : (p : ℕ) → memory.ban ≡ some p → (p ≢ 0) × ((k : ℕ) → Avoids p (v.bans k)) = λ p f.
        (
          (new p f).0,
          λ k.
              unlisted to_lower same n.banned.ban_links p (n.banned.bans k) (v.bans k)
                ((new p f).1 k) (whole.indexed.banned.lists.lists k),
        ) in
      elim (sichannel_add_ban-BanAdded same memory ch from string now n v.bans whole.indexed.banned
        free room) [
          | inl (z, i, s, run) ↦ (v, subst (λ t. W t v) (ap snd (some-eq (sym run ∙ e))) whole)
          | inr (unlike, inl (short, run)) ↦
              (v, subst (λ t. W t v) (ap snd (some-eq (sym run ∙ e))) whole)
          | inr (unlike, inr (p, f, run, banned)) ↦
              let w : View = record v { bans = update v.bans ch (p ∷ v.bans ch) } in
              (
                w,
                subst (λ t. W t w) (ap snd (some-eq (sym run ∙ e)))
                    (bans-Whole to_lower same n v
                      (with_ban same memory ch from string now p n).banned _ ch (p ∷ v.bans ch)
                      whole banned (inl (OnList-In to_lower same n v ch whole on_list))),
              )
        ]
  Step-Whole n r v whole (del_ban ch from string q e) =
      let (b, run, banned) =
        sichannel_del_ban-Banned same ch from string n v.bans whole.indexed.banned in
      (
        record v {
          bans = update v.bans ch (filter (stays same ch from string n.banned) (v.bans ch));
        },
        subst
            (λ t. W t (record v {
              bans = update v.bans ch (filter (stays same ch from string n.banned) (v.bans ch));
            }))
            (some-eq (sym run ∙ e))
            (bans-Whole to_lower same n v b _ ch
              (filter (stays same ch from string n.banned) (v.bans ch)) whole banned
              (elim (whole.idle ch) [
                | inl i ↦ inl i
                | inr (z, f) ↦ inr (ap (filter (stays same ch from string n.banned)) f)
              ])),
      )

  -- Every network that the calls lead to from the one at the start is well-formed, when the memory pool
  -- gives records that are on no list, users join and bans are set on listed channels, and no counter
  -- is full.
  pub Reached-Whole : (n : Net) → Reached to_lower same n → (v : View) × Whole to_lower same n v
  Reached-Whole n start = (no_view to_lower same, first_net-Whole to_lower same)
  Reached-Whole n (step m r before now) =
      let (v, whole) = Reached-Whole m before in Step-Whole m r v whole now
