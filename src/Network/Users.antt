-- ===== src/Network/Users.antt =====
-- What sichannel_add_user and sichannel_del_user of daemon/hash.c write to the lists of a client and of
-- a channel, and siclient_find_channel.
use efnet_services.Common.{ℕ, suc, ◌%◌, Bool, Option, ◌==◌, if◌then◌else◌, update}
use efnet_services.Links.{Chain, add_to_list, del_from_list, scan}
use efnet_services.Run.{add32, sub32}
use efnet_services.Network.{Members}

-- `modes & SI_CHANNEL_MODE_CHANOP`
abbrev pub is_chanop : ℕ → Bool
is_chanop modes = modes % 2 == 1

-- The ops of a channel, or its other users.
abbrev pub users_of : ℕ → Bool → Members → Chain
users_of ch op m = record { first = if op then m.ops ch else m.non_ops ch; links = m.client_links }

abbrev pub channels_of : ℕ → Members → Chain
channels_of c m = record { first = m.channels c; links = m.channel_links }

abbrev pub set_users : ℕ → Bool → Chain → Members → Members
set_users ch op l m = record m {
  ops = if op then update m.ops ch l.first else m.ops;
  non_ops = if op then m.non_ops else update m.non_ops ch l.first;
  client_links = l.links;
}

-- sichannel_add_user, from the two new records on: `x` is the SI_CHANNELLIST, `y` the SI_CLIENTLIST.
unfoldable pub add_member : ℕ → ℕ → ℕ → ℕ → ℕ → Members → Members
add_member x y ch c modes m =
    let l = add_to_list 0 x (channels_of c m) in
    let u = add_to_list 0 y (users_of ch (is_chanop modes) m) in
    record (set_users ch (is_chanop modes) u m) {
      chptr = update m.chptr x ch;
      cptr = update m.cptr y c;
      modes = update m.modes y modes;
      channels = update m.channels c l.first;
      channel_links = l.links;
      clptr = update m.clptr x y;
      chlptr = update m.chlptr y x;
      numchannels = update m.numchannels c (add32 (m.numchannels c) 1);
      numclients = update m.numclients ch (add32 (m.numclients ch) 1);
    }

-- The first half of sichannel_del_user: the SI_CLIENTLIST `y` leaves the channel.
unfoldable pub drop_user : ℕ → ℕ → Members → Members
drop_user y ch m =
    let op = is_chanop (m.modes y) in
    let u = del_from_list 0 y (users_of ch op m) in
    record (set_users ch op u m) { numclients = update m.numclients ch (sub32 (m.numclients ch) 1) }

-- The second half: the SI_CHANNELLIST `x` leaves the client.
unfoldable pub drop_channel : ℕ → ℕ → Members → Members
drop_channel x c m =
    let l = del_from_list 0 x (channels_of c m) in
    record m {
      channels = update m.channels c l.first;
      channel_links = l.links;
      numchannels = update m.numchannels c (sub32 (m.numchannels c) 1);
    }

-- The loop ends after a round for each of the client's channels and one more.
unfoldable pub siclient_find_channel : ℕ → ℕ → Members → Option ℕ
unfolding scan
siclient_find_channel c ch m =
    scan 0 (suc (m.numchannels c)) (λ x. m.chptr x == ch) m.channel_links (m.channels c)
