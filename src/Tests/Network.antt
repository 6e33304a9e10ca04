-- ===== src/Tests/Network.antt =====
-- A network with one channel, at 7, and the client at 3 on it.
use efnet_services.Common.{
  ℕ, ◌≡◌, refl, sym, subst, ◌≢◌, inl, inr, ◌<◌, Bool, true, false, none, some, List, [], ◌∷◌, ◌++◌,
  ◌==◌, if◌then◌else◌, ◌&&◌, map, filter, Avoids, update, Bool-cases, arith,
}
use efnet_services.Run.{Text}
use efnet_services.Links.{add_to_list}
use efnet_services.Links.Reaches.{Reaches-nil, here}
use efnet_services.Table.{add_record}
use efnet_services.Network.{Net, Bans, ban_removed, Sender, Memory}
use efnet_services.Network.BanList.{link_ban, sichannel_add_ban, sichannel_del_ban}
use efnet_services.Network.Channels.{
  sichannel_add, sichannel_add_user, sichannel_find, siclient_del_channels,
}
use efnet_services.Network.Banned.{Banned, link_ban-Banned}
use efnet_services.Network.Unban.{
  BanAdded, stays, meant, sichannel_add_ban-BanAdded, sichannel_del_ban-Banned,
}
use efnet_services.Network.Whole.{View, Whole}
use efnet_services.Network.Find.{Finds, sichannel_find-Finds}
use efnet_services.Network.LeaveAll.{
  GoesOff, Alone, sichannel_del_user-GoesOff, siclient_del_channels-Alone,
}
use efnet_services.Network.Steps.{first_net, named, Reached, add_channel, add_user, start, step}
use efnet_services.Network.Starts.{first_net-Whole}
use efnet_services.Network.Reached.{Reached-Whole}

abbrev as_is : ℕ → ℕ
as_is c = c

abbrev pub same_text : Text → Text → Bool
same_text [] [] = true
same_text [] (b ∷ bs) = false
same_text (a ∷ as1) [] = false
same_text (a ∷ as1) (b ∷ bs) = (a == b) && same_text as1 bs

abbrev chan_name : Text
chan_name = b'#' ∷ b'a' ∷ []

abbrev one_channel : Net
one_channel = sichannel_add as_is 7 100 (named 7 chan_name first_net)

abbrev one_user : Net
one_user = (sichannel_add_user (some 11) (some 12) 7 3 1 true one_channel).1

channel-Reached : Reached as_is same_text one_channel
channel-Reached = step first_net one_channel start (
    add_channel 7 100 chan_name
      (omega arith, Reaches-nil 0 first_net.table.all_links 7 (omega arith) 0 refl) (omega arith))

user-Reached : Reached as_is same_text one_user
unfolding sichannel_add add_record add_to_list
user-Reached = step one_channel one_user channel-Reached (
    add_user 11 12 7 3 1 true
      (
        omega arith,
        omega arith,
        λ c. Reaches-nil 0 one_channel.members.channel_links 11 (omega arith) 0 refl,
        λ ch op. Reaches-nil 0 one_channel.members.client_links 12 (omega arith) _ (either op),
      )
      (omega arith, here 7 refl) (omega arith) (omega arith))
  where
    either : (op : Bool) → ◌≡◌ {A = ℕ} (if op then 0 else 0) 0
    either true = refl
    either false = refl

view_of_user : View
view_of_user = (Reached-Whole as_is same_text one_user user-Reached).0

user-Whole : Whole as_is same_text one_user view_of_user
unfolding view_of_user
user-Whole = (Reached-Whole as_is same_text one_user user-Reached).1

Reached-Whole_example : (v : View) × Whole as_is same_text one_user v
Reached-Whole_example = Reached-Whole as_is same_text one_user user-Reached

siclient_del_channels-Alone_example :
    (r : Net) × (w : View) × (siclient_del_channels same_text 3 one_user ≡ some r)
    × Alone as_is same_text 3 one_user view_of_user r w
siclient_del_channels-Alone_example =
    siclient_del_channels-Alone as_is same_text one_user view_of_user 3 user-Whole

sichannel_del_user-GoesOff_example : GoesOff as_is same_text 7 3 one_user view_of_user
sichannel_del_user-GoesOff_example =
    sichannel_del_user-GoesOff as_is same_text one_user view_of_user 7 3 user-Whole

sichannel_find-Finds_example :
    (r : ℕ) × (sichannel_find same_text as_is chan_name one_user ≡ some r)
    × Finds as_is same_text chan_name one_user view_of_user r
sichannel_find-Finds_example =
    sichannel_find-Finds as_is same_text chan_name one_user view_of_user user-Whole

abbrev first_mask : Text
first_mask = b'x' ∷ []

abbrev banned_net : Net
banned_net = record first_net { banned = link_ban 21 7 first_mask none 100 first_net.banned }

abbrev ban_lists : ℕ → List ℕ
ban_lists = update (λ k. []) 7 (21 ∷ [])

banned_lists : Banned same_text banned_net.banned ban_lists
banned_lists =
    link_ban-Banned same_text first_net.banned (λ k. [])
      (first_net-Whole as_is same_text).indexed.banned 7 21 first_mask none 100 (omega arith)
      (λ k. tt) (omega arith) tt

abbrev op_client : Sender
op_client = record { id = 3; is_server = false; name = b'n' ∷ []; userhost = b'u' ∷ b'@' ∷ [] }

abbrev room : Memory
room = record { ban = some 22; string = true; who = true }

abbrev second_mask : Text
second_mask = b'y' ∷ []

sichannel_add_ban-BanAdded_example :
    BanAdded same_text room 7 op_client second_mask 100 banned_net ban_lists
      (sichannel_add_ban same_text room 7 op_client second_mask 100 banned_net)
unfolding link_ban
sichannel_add_ban-BanAdded_example =
    sichannel_add_ban-BanAdded same_text room 7 op_client second_mask 100 banned_net ban_lists
      banned_lists new_record few
  where
    avoids : (k : ℕ) → Avoids 22 (ban_lists k)
    avoids k = elim (Bool-cases (k == 7)) [ inl y ↦ rw y (omega arith, tt) | inr n ↦ rw n tt ]

    new_record : (p : ℕ) → some 22 ≡ some p → (p ≢ 0) × ((k : ℕ) → Avoids p (ban_lists k))
    new_record p e =
        let f : p ≡ 22 = cc in
        (λ z. omega (arith, f, z), λ k. subst (λ j. Avoids j (ban_lists k)) (sym f) (avoids k))

    few : banned_net.banned.numbans 7 < 0xffff_ffff
    few = omega arith

sichannel_del_ban-Banned_example :
    (c : Bans) × (sichannel_del_ban same_text 7 none (some first_mask) banned_net
      ≡ some (record banned_net {
        banned = c;
        hooks =
            banned_net.hooks
            ++ map
                (ban_removed 7 none)
                (filter (meant same_text 7 none (some first_mask) banned_net.banned) (ban_lists 7));
      }))
    × Banned same_text c (
        update ban_lists 7
          (filter (stays same_text 7 none (some first_mask) banned_net.banned) (ban_lists 7)))
sichannel_del_ban-Banned_example =
    sichannel_del_ban-Banned same_text 7 none (some first_mask) banned_net ban_lists banned_lists
