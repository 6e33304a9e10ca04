-- ===== src/Clients.antt =====
-- The servers and clients that daemon/hash.c keeps, with the lists that they are on. A record is named
-- by its position in memory, and 0 is NULL. What is sent and the hooks of the modules that are called
-- are kept as a list.
pub mod Lists
pub mod Free
pub mod Formed
pub mod Add
pub mod Forget
pub mod Unlink
pub mod Freed
pub mod Children
pub mod Below
pub mod Split
pub mod Start
pub mod Typed
pub mod Search
pub mod Named
pub mod Rename
use efnet_services.Common.{ℕ, Bool, List}
use efnet_services.Links.{Links}
use efnet_services.Run.{Text}
use efnet_services.Network.{Net}

-- The fields of SI_CLIENT, a Boolean for each flag and mode that the functions read; the heads of the
-- lists SIClients, SIServers and SIOpers; CLIENT_HASH; SIMe and SIUplink; and the counters of SIStats.
pub record Clients : Type 0 where
  pub conn : ℕ → ℕ
  pub parent : ℕ → ℕ
  pub hashv : ℕ → ℕ
  pub hv : ℕ → ℕ
  pub name : ℕ → Text
  pub c_type : ℕ → ℕ
  pub host_mask : ℕ → Bool
  pub jupe : ℕ → Bool
  pub del_jupe : ℕ → Bool
  pub local : ℕ → Bool
  pub sent_eob : ℕ → Bool
  pub got_eob : ℕ → Bool
  pub from_split : ℕ → Bool
  pub is_oper : ℕ → Bool
  pub is_invis : ℕ → Bool
  pub clients : ℕ → ℕ
  pub servers : ℕ → ℕ
  pub cs_links : Links
  pub si_clients : ℕ
  pub si_servers : ℕ
  pub a_links : Links
  pub si_opers : ℕ
  pub o_links : Links
  pub buckets : ℕ → ℕ
  pub h_links : Links
  pub me : ℕ
  pub uplink : ℕ
  pub numclients : ℕ
  pub maxclients : ℕ
  pub maxclients_time : ℕ
  pub numgservers : ℕ
  pub maxgservers : ℕ
  pub maxgservers_time : ℕ
  pub nummservers : ℕ
  pub maxmservers : ℕ
  pub maxmservers_time : ℕ
  pub numinvis : ℕ
  pub numopers : ℕ
  pub serversbursting : ℕ

-- The hooks simodule_client_added and simodule_client_removed, siconn_del, and the lines that go to the
-- uplink for a jupe and when a jupe is taken back.
pub data Event : Type 0 where
  added removed conn_deleted nick_sent server_sent quit_sent squit_sent : ℕ → Event

pub record World : Type 0 where
  pub net : Net
  pub people : Clients
  pub events : List Event
