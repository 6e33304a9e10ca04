-- ===== src/Network/BanList.antt =====
-- sichannel_add_ban and sichannel_del_ban of daemon/hash.c. `same` is ircd_strcmp, true where that
-- returns 0. A loop has fuel for each of the channel's bans and one round more.
use efnet_services.Common.{
  ℕ, zero, suc, Bool, true, Option, none, some, List, [], ◌∷◌, ◌++◌, ◌==◌, if◌then◌else◌, update,
}
use efnet_services.Links.{Chain, add_to_list, del_from_list, scan}
use efnet_services.Run.{Text, add32, sub32}
use efnet_services.Network.{
  Bans, Net, Hook, ban_added, ban_removed, Code, ok, enomem, Sender, Memory,
}

abbrev pub bans_of : ℕ → Bans → Chain
bans_of ch b = record { first = b.bans ch; links = b.ban_links }

-- `b_who`: the name of a server, and nick!user@host of a client.
abbrev pub who_of : Sender → Text
who_of from = if from.is_server then from.name else from.name ++ b'!' ∷ from.userhost

-- The ban record `p` with its strings becomes the first of the channel.
unfoldable pub link_ban : ℕ → ℕ → Text → Option Text → ℕ → Bans → Bans
link_ban p ch string who now b =
    let l = add_to_list 0 p (bans_of ch b) in
    record b {
      b_string = update b.b_string p string;
      b_who = update b.b_who p who;
      b_time = update b.b_time p now;
      bans = update b.bans ch l.first;
      ban_links = l.links;
      numbans = update b.numbans ch (add32 (b.numbans ch) 1);
    }

unfoldable pub unlink_ban : ℕ → ℕ → Bans → Bans
unlink_ban p ch b =
    let l = del_from_list 0 p (bans_of ch b) in
    record b {
      bans = update b.bans ch l.first;
      ban_links = l.links;
      numbans = update b.numbans ch (sub32 (b.numbans ch) 1);
    }

module _ (same : Text → Text → Bool) where
  -- The ban of the channel that has the string, or 0.
  unfoldable pub find_ban : ℕ → Text → Bans → Option ℕ
  unfolding scan
  find_ban ch string b =
      scan 0 (suc (b.numbans ch)) (λ p. same (b.b_string p) string) b.ban_links (b.bans ch)

  -- The ban is not there yet: the record and the string must fit in memory.
  unfoldable pub new_ban : Memory → ℕ → Sender → Text → ℕ → Net → Code × Net
  unfolding link_ban
  new_ban memory ch from string now n = elim memory.ban [
    | none ↦ (enomem, n)
    | some p ↦
        if memory.string
        then (
          ok,
          record n {
            banned =
                link_ban p ch string (if memory.who then some (who_of from) else none) now n.banned;
            hooks = n.hooks ++ ban_added ch (some from.id) p ∷ [];
          },
        )
        else (enomem, n)
  ]

  unfoldable pub sichannel_add_ban : Memory → ℕ → Sender → Text → ℕ → Net → Option (Code × Net)
  unfolding find_ban new_ban
  sichannel_add_ban memory ch from string now n = elim (find_ban ch string n.banned) [
    | none ↦ none
    | some p ↦ some (if p == 0 then new_ban memory ch from string now n else (ok, n))
  ]

  -- `!string || !ircd_strcmp(string, ban->b_string)`
  abbrev pub is_meant : Option Text → Text → Bool
  is_meant none b_string = true
  is_meant (some string) b_string = same string b_string

  -- The loop of sichannel_del_ban, with the hooks that it adds.
  unfoldable pub del_loop :
      ℕ → ℕ → Option ℕ → Option Text → ℕ → Bans × List Hook → Option (Bans × List Hook)
  del_loop zero ch from string p s = none
  del_loop (suc fuel) ch from string p (b, hooks) =
      let rest = del_loop fuel ch from string (b.ban_links.next p) (
        if is_meant string (b.b_string p)
        then (unlink_ban p ch b, hooks ++ ban_removed ch from p ∷ [])
        else (b, hooks)) in
      if p == 0 then some (b, hooks) else rest

  unfoldable pub sichannel_del_ban : ℕ → Option ℕ → Option Text → Net → Option Net
  unfolding del_loop
  sichannel_del_ban ch from string n =
      elim (del_loop (suc (n.banned.numbans ch)) ch from string (n.banned.bans ch)
        (n.banned, n.hooks)) [
          | none ↦ none
          | some (b, hooks) ↦ some (record n { banned = b; hooks = hooks })
        ]
