-- ===== src/Network/Unban.antt =====
-- What sichannel_add_ban and sichannel_del_ban of daemon/hash.c return, and the bans that they leave.
use efnet_services.Common.{
  ℕ, zero, suc, ◌≡◌, refl, sym, ap, ◌∙◌, subst, ◌≢◌, ◌⊎◌, inl, inr, ◌<◌, List, [], ◌∷◌, ◌++◌, ◌==◌,
  if◌then◌else◌, Bool, true, false, not, Option, none, some, map, filter, length, head_or,
  append_assoc, append-nil, All, Avoids, In, All-In, update, update_self, update_own, update_twice,
  Bool-cases, Option-cases, eq→==, ne→==, arith,
}
use efnet_services.Links.{scan}
use efnet_services.Links.Segment.{Segment, Segment-right}
use efnet_services.Links.Scan.{Found, scan-Found}
use efnet_services.Links.Family.{family-proper, In-middle}
use efnet_services.Run.{Text, npos}
use efnet_services.Network.{
  Bans, Net, Hook, ban_added, ban_removed, Code, ok, enomem, Sender, Memory,
}
use efnet_services.Network.Joined.{dec_position}
use efnet_services.Network.BanList.{
  who_of, link_ban, unlink_ban, find_ban, new_ban, sichannel_add_ban, is_meant, del_loop,
  sichannel_del_ban,
}
use efnet_services.Network.Banned.{Banned, link_ban-Banned, unlink_ban-Banned}

module _ (same : Text → Text → Bool) (ch : ℕ) (from : Option ℕ) (string : Option Text) where
  abbrev pub meant : Bans → ℕ → Bool
  meant b p = is_meant same string (b.b_string p)

  abbrev pub stays : Bans → ℕ → Bool
  stays b p = not (meant b p)

  -- From `rest` on, after the bans `us` that stay, the loop removes those that are meant.
  abbrev Cleared : ℕ → List ℕ → List ℕ → Bans → (ℕ → List ℕ) → List Hook → Type 0
  Cleared fuel us rest b of hooks =
      (c : Bans) × (del_loop same fuel ch from string (head_or 0 rest) (b, hooks)
        ≡ some (c, hooks ++ map (ban_removed ch from) (filter (meant b) rest)))
      × Banned same c (update of ch (us ++ filter (stays b) rest))

  del_loop-Cleared :
      (fuel : ℕ) (us rest : List ℕ) (b : Bans) (of : ℕ → List ℕ) (hooks : List Hook)
      → Banned same b of
      → of ch ≡ us ++ rest
      → length rest < fuel
      → Cleared fuel us rest b of hooks
  unfolding del_loop unlink_ban
  del_loop-Cleared zero us rest b of hooks banned here enough = absurd (omega arith)
  del_loop-Cleared (suc fuel) us [] b of hooks banned here enough = (
    b,
    rw (append-nil hooks) refl,
    subst (Banned same b) (sym (ap (update of ch) (sym here) ∙ update_own of ch)) banned,
  )
  del_loop-Cleared (suc fuel) us (p ∷ ps) b of hooks banned here enough =
      let linked = subst (λ xs. Segment 0 b.ban_links 0 xs 0) here (banned.lists.lists ch).linked in
      let (proper, before, after, more) = Segment-right 0 b.ban_links 0 0 us (p ∷ ps) linked in
      elim (Bool-cases (meant b p)) [
        | inl y ↦
            let (c, e, done) =
              del_loop-Cleared fuel us ps (unlink_ban p ch b) (update of ch (us ++ ps))
                (hooks ++ ban_removed ch from p ∷ [])
                (unlink_ban-Banned same b of banned ch p us ps here) (update_self of ch (us ++ ps))
                (omega arith) in
            (
              c,
              rw (ne→== p 0 proper, y, after)
                  (e
                    ∙ ap (λ (h : List Hook). some (c, h))
                        (append_assoc hooks (ban_removed ch from p ∷ [])
                          (map (ban_removed ch from) (filter (meant b) ps)))),
              rw y (
                  subst (Banned same c) (update_twice of ch (us ++ ps) (us ++ filter (stays b) ps))
                    done),
            )
        | inr n ↦
            let (c, e, done) =
              del_loop-Cleared fuel (us ++ p ∷ []) ps b of hooks banned
                (here ∙ sym (append_assoc us (p ∷ []) ps)) (omega arith) in
            (
              c,
              rw (ne→== p 0 proper, n, after) e,
              rw n (
                  subst (λ xs. Banned same c (update of ch xs))
                    (append_assoc us (p ∷ []) (filter (stays b) ps)) done),
            )
      ]

  -- sichannel_del_ban ends. From a well-formed state it removes the bans of the channel that have the
  -- string, or all when there is none; the others stay in their order, the hook is called for each
  -- removed ban from the newest on, and the state is well-formed again.
  pub sichannel_del_ban-Banned :
      (n : Net) (of : ℕ → List ℕ)
      → Banned same n.banned of
      → (c : Bans) × (sichannel_del_ban same ch from string n
          ≡ some (record n {
            banned = c;
            hooks = n.hooks ++ map (ban_removed ch from) (filter (meant n.banned) (of ch));
          }))
        × Banned same c (update of ch (filter (stays n.banned) (of ch)))
  unfolding sichannel_del_ban
  sichannel_del_ban-Banned n of banned =
      let (c, e, done) =
        del_loop-Cleared (suc (n.banned.numbans ch)) [] (of ch) n.banned of n.hooks banned refl
          (omega (arith, banned.numbans ch)) in
      let starts : n.banned.bans ch ≡ head_or 0 (of ch) = (banned.lists.lists ch).starts in
      let run =
        ap
          (λ (k : ℕ).
            del_loop same (suc (n.banned.numbans ch)) ch from string k (n.banned, n.hooks))
          starts
        ∙ e in
      (c, rw (run, sichannel_del_ban) refl, done)

module _ (same : Text → Text → Bool) (memory : Memory) (ch : ℕ) (from : Sender) (string : Text)
    (now : ℕ) where
  abbrev pub with_ban : ℕ → Net → Net
  with_ban p n = record n {
    banned = link_ban p ch string (if memory.who then some (who_of from) else none) now n.banned;
    hooks = n.hooks ++ ban_added ch (some from.id) p ∷ [];
  }

  -- A ban with the string is there, memory is short, or the ban is added.
  abbrev pub BanAdded : Net → (ℕ → List ℕ) → Option (Code × Net) → Type 0
  BanAdded n of r =
      ((q : ℕ) × In q (of ch) × (same (n.banned.b_string q) string ≡ true) × (r ≡ some (ok, n)))
      ⊎ (All (λ q. same (n.banned.b_string q) string ≡ false) (of ch)
          × (((memory.ban ≡ none) ⊎ (memory.string ≡ false)) × (r ≡ some (enomem, n))
              ⊎ ((p : ℕ) × (memory.ban ≡ some p)
                  × (r ≡ some (ok, with_ban p n))
                  × Banned same (with_ban p n).banned (update of ch (p ∷ of ch)))))

  -- sichannel_add_ban ends. From a well-formed state, when the pool gives a new record and
  -- `ch_numbans` is not full, it does
  -- nothing when the channel has a ban with the string; otherwise it fails with ENOMEM and does nothing
  -- when memory is short for the record or the string, and else the new ban is the first of
  -- the channel, the hook is called, and the state is well-formed again.
  pub sichannel_add_ban-BanAdded :
      (n : Net) (of : ℕ → List ℕ)
      → Banned same n.banned of
      → ((p : ℕ) → memory.ban ≡ some p → (p ≢ 0) × ((k : ℕ) → Avoids p (of k)))
      → n.banned.numbans ch < npos
      → BanAdded n of (sichannel_add_ban same memory ch from string now n)
  unfolding sichannel_add_ban find_ban new_ban
  sichannel_add_ban-BanAdded n of banned fresh room =
      let b = n.banned in
      let own = banned.lists.lists ch in
      let (r, e, found) =
        scan-Found 0 (λ p. same (b.b_string p) string) b.ban_links (suc (b.numbans ch)) 0 (of ch)
          (omega (arith, banned.numbans ch)) own.linked in
      let starts : b.bans ch ≡ head_or 0 (of ch) = own.starts in
      let run =
        ap (λ (k : ℕ). scan 0 (suc (b.numbans ch)) (λ p. same (b.b_string p) string) b.ban_links k)
          starts
        ∙ e in
      let eq : sichannel_add_ban same memory ch from string now n
          ≡ some (if r == 0 then new_ban same memory ch from string now n else (ok, n)) =
        rw (run, sichannel_add_ban) refl in
      subst (BanAdded n of) (sym eq) (go r found)
    where
      go :
          (r : ℕ)
          → Found 0 (λ p. same (n.banned.b_string p) string) (of ch) r
          → BanAdded n of
              (some (if r == 0 then new_ban same memory ch from string now n else (ok, n)))
      go r (inr (us, vs, e, good, before)) =
          let i = subst (In r) (sym e) (In-middle r us vs) in
          rw
            (ne→== r 0 (λ z.
              All-In (λ k. 0 ≢ k) r (of ch)
                (family-proper 0 dec_position n.banned.bans n.banned.ban_links of banned.lists ch) i
                (sym z)))
            (inl (r, i, good, refl))
      go r (inl (z, all)) = rw (eq→== r 0 z) (
          inr (
            all,
            elim (Option-cases memory.ban) [
              | inl e ↦ inl (inl e, rw (e) refl)
              | inr (p, e) ↦ elim (Bool-cases memory.string) [
                | inr no_room ↦ inl (inr no_room, rw (e, no_room) refl)
                | inl fits ↦ inr (
                  p,
                  e,
                  rw (e, fits) refl,
                  link_ban-Banned same n.banned of banned ch p string
                      (if memory.who then some (who_of from) else none) now (fresh p e).0
                      (fresh p e).1 room all,
                )
              ]
            ],
          ))
