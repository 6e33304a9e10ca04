-- ===== src/Network.antt =====
-- The network that daemon/hash.c keeps: the channels, their users and their bans. A record is named by
-- its position in memory, and 0 is NULL. Each function keeps a list of the hooks of the modules that
-- it calls, in their order.
pub mod Users
pub mod Joined
pub mod Join
pub mod Part
pub mod BanList
pub mod Banned
pub mod Unban
pub mod Channels
pub mod Whole
pub mod Delete
pub mod Find
pub mod Leave
pub mod LeaveAll
pub mod Starts
pub mod Reached
pub mod Steps
use efnet_services.Common.{ℕ, Bool, List, Option}
use efnet_services.Links.{Links}
use efnet_services.Run.{Text}
use efnet_services.Table.{Table}

-- The SI_CHANNELLIST and SI_CLIENTLIST records, one of each for every user of a channel, and the
-- fields of the clients and the channels that keep them.
pub record Members : Type 0 where
  -- of a client
  pub channels : ℕ → ℕ
  pub numchannels : ℕ → ℕ
  -- of a channel
  pub ops : ℕ → ℕ
  pub non_ops : ℕ → ℕ
  pub numclients : ℕ → ℕ
  -- of an SI_CHANNELLIST
  pub chptr : ℕ → ℕ
  pub clptr : ℕ → ℕ
  pub channel_links : Links
  -- of an SI_CLIENTLIST
  pub cptr : ℕ → ℕ
  pub modes : ℕ → ℕ
  pub chlptr : ℕ → ℕ
  pub client_links : Links

-- The SI_BAN records, and the fields of the channels that keep them. `b_who` may be NULL.
pub record Bans : Type 0 where
  pub bans : ℕ → ℕ
  pub numbans : ℕ → ℕ
  pub b_string : ℕ → Text
  pub b_who : ℕ → Option Text
  pub b_time : ℕ → ℕ
  pub ban_links : Links

-- The calls of the simodule_channel_... functions.
pub data Hook : Type 0 where
  channel_added channel_removed : ℕ → Hook
  client_added client_removed : ℕ → ℕ → ℕ → Hook
  ban_added ban_removed : ℕ → Option ℕ → ℕ → Hook

-- `table` is CHANNEL_HASH and SIChannels, and counts st_numchannels; `ch_hv` and `ch_name` are fields of
-- the channels.
pub record Net : Type 0 where
  pub members : Members
  pub banned : Bans
  pub table : Table
  pub ch_hv : ℕ → ℕ
  pub ch_name : ℕ → Text
  pub maxchannels : ℕ
  pub maxchannels_time : ℕ
  pub hooks : List Hook

pub data Code : Type 0 where
  ok enomem : Code

-- What the functions read of the SI_CLIENT `from`.
pub record Sender : Type 0 where
  pub id : ℕ
  pub is_server : Bool
  pub name : Text
  pub userhost : Text

-- What the memory pool gives for a ban: a record, or NULL, and whether there is room for the copies of
-- its strings.
pub record Memory : Type 0 where
  pub ban : Option ℕ
  pub string : Bool
  pub who : Bool
