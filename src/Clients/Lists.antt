-- ===== src/Clients/Lists.antt =====
-- The writes of daemon/hash.c to the lists of clients and servers, and siclient_add.
use efnet_services.Common.{
  ℕ, ◌%◌, ◌*◌, ◌-◌, Bool, true, false, not, ◌&&◌, ◌||◌, List, [], ◌∷◌, ◌++◌, ◌==◌, ltb,
  if◌then◌else◌, update,
}
use efnet_services.Links.{Chain, add_to_list, del_from_list}
use efnet_services.Run.{Text, add32, sub32}
use efnet_services.ChanfixDb.Hash.{hash_compute_client}
use efnet_services.Clients.{Clients, World, Event, added, nick_sent, server_sent}

-- SI_CLIENT_HASHSIZE
abbrev pub client_hashsize : ℕ
client_hashsize = 128 * 1024 - 1

-- CliIsClient and CliIsServer
abbrev pub is_client : Clients → ℕ → Bool
is_client p c = p.c_type c == 0

abbrev pub is_server : Clients → ℕ → Bool
is_server p c = p.c_type c == 1

-- c_clients of a server, or its c_servers.
abbrev pub children : Bool → ℕ → Clients → Chain
children cli s p = record { first = if cli then p.clients s else p.servers s; links = p.cs_links }

-- Nothing is written for a client without a parent.
abbrev pub set_children : Bool → ℕ → Chain → Clients → Clients
set_children cli s l p = record p {
  clients = if cli && not (s == 0) then update p.clients s l.first else p.clients;
  servers = if cli || s == 0 then p.servers else update p.servers s l.first;
  cs_links = if s == 0 then p.cs_links else l.links;
}

-- SIClients, or SIServers.
abbrev pub everyone : Bool → Clients → Chain
everyone cli p = record { first = if cli then p.si_clients else p.si_servers; links = p.a_links }

abbrev pub set_everyone : Bool → Chain → Clients → Clients
set_everyone cli l p = record p {
  si_clients = if cli then l.first else p.si_clients;
  si_servers = if cli then p.si_servers else l.first;
  a_links = l.links;
}

abbrev pub bucket : ℕ → Clients → Chain
bucket k p = record { first = p.buckets k; links = p.h_links }

abbrev pub opers : Clients → Chain
opers p = record { first = p.si_opers; links = p.o_links }

-- The client goes on SIOpers, or leaves it, when the test holds.
abbrev pub oper_added : Bool → ℕ → Clients → Clients
oper_added test c p =
    let l = add_to_list 0 c (opers p) in
    record p {
      si_opers = if test then l.first else p.si_opers;
      o_links = if test then l.links else p.o_links;
      numopers = if test then add32 p.numopers 1 else p.numopers;
    }

abbrev pub oper_removed : Bool → ℕ → Clients → Clients
oper_removed test c p =
    let l = del_from_list 0 c (opers p) in
    record p {
      si_opers = if test then l.first else p.si_opers;
      o_links = if test then l.links else p.o_links;
      numopers = if test then sub32 p.numopers 1 else p.numopers;
    }

unfoldable pub siclient_add_oper : ℕ → Clients → Clients
siclient_add_oper c p = oper_added true c p

unfoldable pub siclient_del_oper : ℕ → Clients → Clients
siclient_del_oper c p = oper_removed true c p

abbrev pub starts_with_star : Text → Bool
starts_with_star [] = false
starts_with_star (c ∷ cs) = c == b'*'

module _ (to_lower : ℕ → ℕ) where
  unfoldable pub sihash_compute_client : Text → ℕ
  unfolding hash_compute_client
  sihash_compute_client name = hash_compute_client to_lower name

  -- _siclient_hash_add
  unfoldable pub hash_add : ℕ → Clients → Clients
  unfolding sihash_compute_client
  hash_add c p =
      let hashv = sihash_compute_client (p.name c) in
      let mask = starts_with_star (p.name c) in
      let hv = if mask then client_hashsize else hashv % client_hashsize in
      let l = add_to_list 0 c (bucket hv p) in
      record p {
        hashv = update p.hashv c hashv;
        hv = update p.hv c hv;
        host_mask = if mask then update p.host_mask c true else p.host_mask;
        buckets = update p.buckets hv l.first;
        h_links = l.links;
      }

-- _siclient_hash_del
unfoldable pub hash_del : ℕ → Clients → Clients
hash_del c p =
    let l = del_from_list 0 c (bucket (p.hv c) p) in
    record p { buckets = update p.buckets (p.hv c) l.first; h_links = l.links }

-- The counters when a client, or a server, is added.
abbrev pub count_new : Bool → ℕ → ℕ → Clients → Clients
count_new cli now c p =
    let n = add32 (if cli then p.numclients else p.numgservers) 1 in
    let most_clients = cli && ltb p.maxclients n in
    let most_servers = not cli && ltb p.maxgservers n in
    let mine = not cli && not (p.conn c == 0) in
    let m = add32 p.nummservers 1 in
    let most_mine = mine && ltb p.maxmservers m in
    record p {
      numclients = if cli then n else p.numclients;
      maxclients = if most_clients then n else p.maxclients;
      maxclients_time = if most_clients then now else p.maxclients_time;
      numgservers = if cli then p.numgservers else n;
      maxgservers = if most_servers then n else p.maxgservers;
      maxgservers_time = if most_servers then now else p.maxgservers_time;
      nummservers = if mine then m else p.nummservers;
      maxmservers = if most_mine then m else p.maxmservers;
      maxmservers_time = if most_mine then now else p.maxmservers_time;
    }

-- The client goes on the list of its parent, when it has one, and on the list of all.
abbrev pub link_new : Bool → ℕ → ℕ → Clients → Clients
link_new cli s c p =
    set_everyone cli (add_to_list 0 c (everyone cli p))
      (set_children cli s (add_to_list 0 c (children cli s p)) p)

-- siclient_send_jupe, without the text of the lines.
unfoldable pub siclient_send_jupe : ℕ → Clients → List Event
siclient_send_jupe c p =
    if p.uplink == 0
    then []
    else if is_client p c
    then nick_sent c ∷ []
    else if is_server p c
    then server_sent c ∷ []
    else []

-- `from`, or SIMe in place of NULL.
abbrev pub parent_for : ℕ → Clients → ℕ
parent_for from p = if from == 0 then p.me else from

abbrev pub attach : ℕ → ℕ → Clients → Clients
attach from c p =
    let has_conn = not (p.conn c == 0) in
    record p {
      uplink = if has_conn then c else p.uplink;
      local = if has_conn then update p.local c true else p.local;
      parent = update p.parent c (parent_for from p);
    }

unfoldable pub siclient_add : (ℕ → ℕ) → ℕ → ℕ → ℕ → World → World
unfolding hash_add siclient_send_jupe
siclient_add to_lower from c now w =
    let s = parent_for from w.people in
    let cli = is_client w.people c in
    let p = link_new cli s c (count_new cli now c (attach from c w.people)) in
    let h = hash_add to_lower c p in
    let o = oper_added (h.is_oper c) c h in
    let i = record o { numinvis = if o.is_invis c then add32 o.numinvis 1 else o.numinvis } in
    record w {
      people = i;
      events = w.events ++ (if i.jupe c then siclient_send_jupe c i else []) ++ added c ∷ [];
    }
