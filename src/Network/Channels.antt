-- ===== src/Network/Channels.antt =====
-- The functions of daemon/hash.c on channels and their users. `same` is ircd_strcmp, true where that
-- returns 0. A function returns `none` when an assertion fails or when a loop has gone round more
-- often than there are records.
use efnet_services.Common.{
  ℕ, zero, suc, ◌%◌, ◌*◌, ◌-◌, ◌&&◌, Bool, true, false, Option, none, some, ◌∷◌, [], ◌++◌, ◌==◌,
  ltb, if◌then◌else◌, update,
}
use efnet_services.Links.{del_from_list, scan}
use efnet_services.Run.{Text, sub32}
use efnet_services.Table.{Table, all_of, bucket_of, add_record}
use efnet_services.ChanfixDb.Hash.{hash_compute_channel}
use efnet_services.Network.{
  Net, channel_added, channel_removed, client_added, client_removed, Code, ok, enomem,
}
use efnet_services.Network.Users.{add_member, drop_user, drop_channel, siclient_find_channel}
use efnet_services.Network.BanList.{sichannel_del_ban}

-- SI_CHANNEL_HASHSIZE
abbrev pub channel_hashsize : ℕ
channel_hashsize = 48 * 1024 - 1

module _ (to_lower : ℕ → ℕ) where
  unfoldable pub sihash_compute_channel : Text → ℕ
  unfolding hash_compute_channel
  sihash_compute_channel name = hash_compute_channel to_lower name

  unfoldable pub sichannel_add : ℕ → ℕ → Net → Net
  unfolding add_record sihash_compute_channel
  sichannel_add ch now n =
      let hashv = sihash_compute_channel (n.ch_name ch) in
      let t = add_record 0 ch hashv n.table in
      let more = ltb n.maxchannels t.num in
      record n {
        table = t;
        ch_hv = update n.ch_hv ch (hashv % n.table.slots);
        maxchannels = if more then t.num else n.maxchannels;
        maxchannels_time = if more then now else n.maxchannels_time;
        hooks = n.hooks ++ channel_added ch ∷ [];
      }

-- The first lines of sichannel_del: the channel leaves bucket `hv` and the list of all channels.
unfoldable pub unlist : ℕ → ℕ → Table → Table
unlist ch hv t =
    let h = del_from_list 0 ch (bucket_of hv t) in
    let a = del_from_list 0 ch (all_of t) in
    record t {
      num = sub32 t.num 1;
      first = a.first;
      buckets = update t.buckets hv h.first;
      hash_links = h.links;
      all_links = a.links;
    }

-- The two calloc's of sichannel_add_user, and what follows them.
unfoldable pub sichannel_add_user : Option ℕ → Option ℕ → ℕ → ℕ → ℕ → Bool → Net → Code × Net
unfolding add_member
sichannel_add_user none clptr ch c modes is_new n = (enomem, n)
sichannel_add_user (some x) none ch c modes is_new n = (enomem, n)
sichannel_add_user (some x) (some y) ch c modes is_new n = (
  ok,
  record n {
    members = add_member x y ch c modes n.members;
    hooks = if is_new then n.hooks else n.hooks ++ client_added ch c y ∷ [];
  },
)

module _ (same : Text → Text → Bool) where
  unfoldable pub sichannel_find : (ℕ → ℕ) → Text → Net → Option ℕ
  unfolding scan sihash_compute_channel
  sichannel_find to_lower name n =
      let hashv = sihash_compute_channel to_lower name in
      scan 0 (suc n.table.num) (λ ch. n.table.hashv ch == hashv && same name (n.ch_name ch))
        n.table.hash_links (n.table.buckets (hashv % n.table.slots))

  unfoldable pub sichannel_del : ℕ → Net → Option Net
  unfolding unlist sichannel_del_ban
  sichannel_del ch n =
      elim (sichannel_del_ban same ch none none
        (record n { table = unlist ch (n.ch_hv ch) n.table })) [
          | none ↦ none
          | some r ↦
              if r.members.numclients ch == 0 && r.banned.numbans ch == 0
              then some (record r { hooks = r.hooks ++ channel_removed ch ∷ [] })
              else none
        ]

  -- sichannel_del_user, once the SI_CHANNELLIST `x` is known.
  unfoldable pub del_user_at : ℕ → ℕ → ℕ → Net → Option Net
  unfolding drop_user drop_channel sichannel_del
  del_user_at x ch c n =
      let y = n.members.clptr x in
      let m = drop_user y ch n.members in
      let r = record n { members = m; hooks = n.hooks ++ client_removed ch c y ∷ [] } in
      elim (if m.numclients ch == 0 then sichannel_del ch r else some r) [
        | none ↦ none
        | some s ↦ some (record s { members = drop_channel x c s.members })
      ]

  -- `chlptr` may be 0.
  unfoldable pub sichannel_del_user : ℕ → ℕ → ℕ → Net → Option Net
  unfolding del_user_at siclient_find_channel
  sichannel_del_user ch c chlptr n =
      if chlptr == 0
      then elim (siclient_find_channel c ch n.members) [
        | none ↦ none
        | some x ↦ if x == 0 then some n else del_user_at x ch c n
      ]
      else del_user_at chlptr ch c n

  unfoldable pub del_channels_loop : ℕ → ℕ → Net → Option Net
  unfolding sichannel_del_user
  del_channels_loop zero c n = none
  del_channels_loop (suc fuel) c n =
      let x = n.members.channels c in
      elim (x == 0) [
        | true ↦ if n.members.numchannels c == 0 then some n else none
        | false ↦ elim (n.members.numchannels c == 0) [
          | true ↦ none
          | false ↦ elim (sichannel_del_user (n.members.chptr x) c x n) [
            | none ↦ none
            | some r ↦ del_channels_loop fuel c r
          ]
        ]
      ]

  -- The loop ends after a round for each of the client's channels and one more.
  unfoldable pub siclient_del_channels : ℕ → Net → Option Net
  unfolding del_channels_loop
  siclient_del_channels c n = del_channels_loop (suc (n.members.numchannels c)) c n
