-- ===== src/Jupes.antt =====
-- The jupes of modules/jupes/mod_jupes.c: the votes of operators on a server that is to be kept off the
-- network, and the jupes that have enough of them. A jupe is named by a position, its pointer, and 0 is
-- NULL. Messages and the log are left out, and so is what is written to the data file.
pub mod Votes
pub mod Prune
pub mod Commands
pub mod Pruned
pub mod Sound
pub mod Formed
pub mod Voted
pub mod Unjupe
pub mod Keeps
pub mod Whole
use efnet_services.Common.{ℕ, ◌+◌, Bool, true, false, Option, List, update}
use efnet_services.Links.{Links, Chain}
use efnet_services.Run.{Text}

-- SI_MOD_JUPE_TIMEOUT, SI_MOD_JUPE_SCORE_ADMIN, _OPER and _NEEDED
abbrev pub timeout : ℕ
timeout = 1800

abbrev pub score_admin : ℕ
score_admin = 5

abbrev pub score_oper : ℕ
score_oper = 3

abbrev pub score_needed : ℕ
score_needed = 15

-- struct _si_mod_uvote
pub record UVote : Type 0 where
  pub nick : Text
  pub userhost : Text
  pub score : ℕ

-- struct _si_mod_svote
pub record SVote : Type 0 where
  pub server : Text
  pub uvotes : List UVote

-- struct _si_mod_jupe; `active` and `conffile` are its flags.
pub record Jupe : Type 0 where
  pub name : Text
  pub reason : Text
  pub username : Text
  pub hostname : Text
  pub creation : ℕ
  pub last_heard : ℕ
  pub expires : ℕ
  pub active : Bool
  pub conffile : Bool
  pub score : ℕ
  pub svotes : List SVote

-- SIModJupes, its records and links, and whether `j_client` of a record is a client of the module.
pub record Jupes : Type 0 where
  pub first : ℕ
  pub links : Links
  pub jupe : ℕ → Jupe
  pub juped : ℕ → Bool

-- The client that sends a command, and what simodadmin_client_is_authed says of it.
pub record Caller : Type 0 where
  pub nick : Text
  pub userhost : Text
  pub server : Text
  pub authed : Bool

-- What the commands take from elsewhere: the time, the names of the daemon and of its uplink, the two
-- lists of masks of the configuration, whether ircd_match and ircd_strcmp return 0, and the error of
-- simodule_add_client for a name.
pub record World : Type 0 where
  pub now : ℕ
  pub my_name : Text
  pub uplink : Option Text
  pub ouh_ignores : List Text
  pub oserv_ignores : List Text
  pub matches : Text → Text → Bool
  pub same_text : Text → Text → Bool
  pub add_client : Text → Option ℕ

-- The record that simempool_calloc gives for a jupe, and whether there is memory for its strings and
-- for a vote.
pub record Memory : Type 0 where
  pub jupe : Option ℕ
  pub strings : Bool
  pub vote : Bool

-- What a command returns; `stuck` stands for a loop that is out of fuel.
pub data Reply : Type 0 where
  ok efault einval enomem enoent eacces stuck : Reply

abbrev pub chain_of : Jupes → Chain
chain_of db = record { first = db.first; links = db.links }

abbrev pub write_jupe : ℕ → Jupe → Jupes → Jupes
write_jupe p j db = record db { jupe = update db.jupe p j }
