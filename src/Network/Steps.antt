-- ===== src/Network/Steps.antt =====
-- The networks that the calls of daemon/hash.c lead to, from the one at the start.
use efnet_services.Common.{ℕ, ◌≡◌, ◌≢◌, ◌<◌, Bool, Option, none, some, [], update}
use efnet_services.Run.{Text, npos}
use efnet_services.Links.{Links}
use efnet_services.Links.Reaches.{Reaches}
use efnet_services.Network.{Net, Code, Sender, Memory}
use efnet_services.Network.Users.{users_of}
use efnet_services.Network.BanList.{sichannel_add_ban, sichannel_del_ban}
use efnet_services.Network.Channels.{
  channel_hashsize, sichannel_add, sichannel_add_user, sichannel_del_user, siclient_del_channels,
}

abbrev pub no_links : Links
no_links = record { prev = λ p. 0; next = λ p. 0 }

-- The memory that sihash_init clears.
abbrev pub first_net : Net
first_net = record {
  members = record {
    channels = λ c. 0;
    numchannels = λ c. 0;
    ops = λ ch. 0;
    non_ops = λ ch. 0;
    numclients = λ ch. 0;
    chptr = λ x. 0;
    clptr = λ x. 0;
    channel_links = no_links;
    cptr = λ y. 0;
    modes = λ y. 0;
    chlptr = λ y. 0;
    client_links = no_links;
  };
  banned = record {
    bans = λ ch. 0;
    numbans = λ ch. 0;
    b_string = λ p. [];
    b_who = λ p. none;
    b_time = λ p. 0;
    ban_links = no_links;
  };
  table = record {
    slots = channel_hashsize;
    num = 0;
    first = 0;
    hashv = λ ch. 0;
    buckets = λ hv. 0;
    hash_links = no_links;
    all_links = no_links;
  };
  ch_hv = λ ch. 0;
  ch_name = λ ch. [];
  maxchannels = 0;
  maxchannels_time = 0;
  hooks = [];
}

-- The channel is on the list SIChannels.
abbrev pub OnList : ℕ → Net → Type 0
OnList ch n = (ch ≢ 0) × Reaches 0 n.table.all_links ch n.table.first

-- The memory pool gives no position that is on a list.
abbrev pub NewChannel : ℕ → Net → Type 0
NewChannel ch n = (ch ≢ 0) × (Reaches 0 n.table.all_links ch n.table.first → ⊥)

abbrev pub NewPair : ℕ → ℕ → Net → Type 0
NewPair x y n =
    (x ≢ 0)
    × (y ≢ 0)
    × ((c : ℕ) → Reaches 0 n.members.channel_links x (n.members.channels c) → ⊥)
    × ((ch : ℕ) (op : Bool)
        → Reaches 0 n.members.client_links y (users_of ch op n.members).first
        → ⊥)

abbrev pub NewBan : ℕ → Net → Type 0
NewBan p n = (p ≢ 0) × ((ch : ℕ) → Reaches 0 n.banned.ban_links p (n.banned.bans ch) → ⊥)

abbrev pub named : ℕ → Text → Net → Net
named ch name n = record n { ch_name = update n.ch_name ch name }

module _ (to_lower : ℕ → ℕ) (same : Text → Text → Bool) where
  -- One call. The counters of the lists that grow are not full.
  pub data Step (n : Net) : Net → Type 0 where
    add_channel :
        (ch now : ℕ) (name : Text)
        → NewChannel ch n
        → n.table.num < npos
        → Step n (sichannel_add to_lower ch now (named ch name n))
    add_user :
        (x y ch c modes : ℕ) (is_new : Bool)
        → NewPair x y n
        → OnList ch n
        → n.members.numchannels c < npos
        → n.members.numclients ch < npos
        → Step n (sichannel_add_user (some x) (some y) ch c modes is_new n).1
    del_user : (ch c : ℕ) (r : Net) → sichannel_del_user same ch c 0 n ≡ some r → Step n r
    del_channels : (c : ℕ) (r : Net) → siclient_del_channels same c n ≡ some r → Step n r
    add_ban :
        (memory : Memory) (ch : ℕ) (from : Sender) (string : Text) (now : ℕ) (code : Code) (r : Net)
        → ((p : ℕ) → memory.ban ≡ some p → NewBan p n)
        → OnList ch n
        → n.banned.numbans ch < npos
        → sichannel_add_ban same memory ch from string now n ≡ some (code, r)
        → Step n r
    del_ban :
        (ch : ℕ) (from : Option ℕ) (string : Option Text) (r : Net)
        → sichannel_del_ban same ch from string n ≡ some r
        → Step n r

  -- Any number of calls.
  pub data Reached : Net → Type 0 where
    start : Reached first_net
    step : (n r : Net) → Reached n → Step n r → Reached r
