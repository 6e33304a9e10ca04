-- ===== src/Clients/Free.antt =====
-- siclient_free of daemon/hash.c. `none` is for a loop that goes round more often than there are records,
-- and for an assertion that fails.
use efnet_services.Common.{
  ℕ, zero, suc, Bool, true, false, not, ◌&&◌, ◌||◌, Option, none, some, List, [], ◌∷◌, ◌++◌, ◌==◌,
  if◌then◌else◌, update,
}
use efnet_services.Links.{del_from_list}
use efnet_services.Run.{Text, sub32}
use efnet_services.Network.Channels.{siclient_del_channels}
use efnet_services.Clients.{Clients, World, Event, removed, conn_deleted, quit_sent, squit_sent}
use efnet_services.Clients.Lists.{
  is_client, is_server, children, set_children, everyone, set_everyone, hash_del, oper_removed,
  siclient_send_jupe,
}

-- The lines up to the one about jupes: the client is no uplink any more, and out of the hash table.
unfoldable pub forget : ℕ → Clients → Clients
unfolding hash_del
forget c p =
    let h = hash_del c (record p { uplink = if c == p.uplink then 0 else p.uplink }) in
    let bursts = is_server h c && h.sent_eob c && not (h.got_eob c) in
    record h { serversbursting = if bursts then sub32 h.serversbursting 1 else h.serversbursting }

-- A jupe stays, unless it is taken back.
abbrev pub is_kept : Clients → ℕ → Bool
is_kept p c = p.jupe c && not (p.del_jupe c) && (is_server p c || is_client p c)

-- What is sent when a jupe is taken back.
abbrev pub take_back : ℕ → Clients → List Event
take_back c p =
    if not (p.jupe c) || p.uplink == 0
    then []
    else if is_server p c
    then squit_sent c ∷ []
    else if is_client p c
    then quit_sent c ∷ []
    else []

-- The lines after the loops: the counters, the lists of the parent, of all and of the opers.
unfoldable pub unlink : Bool → ℕ → Clients → Clients
unlink cli c p =
    let s = p.parent c in
    let u =
      set_everyone cli (del_from_list 0 c (everyone cli p))
        (set_children cli s (del_from_list 0 c (children cli s p)) p) in
    let o = oper_removed (p.is_oper c) c u in
    record o {
      numclients = if cli then sub32 p.numclients 1 else p.numclients;
      numgservers = if cli then p.numgservers else sub32 p.numgservers 1;
      nummservers = if not cli && p.local c then sub32 p.nummservers 1 else p.nummservers;
      numinvis = if p.is_invis c then sub32 p.numinvis 1 else p.numinvis;
    }

abbrev pub unlinked : Bool → ℕ → World → World
unlinked cli c w = record w { people = unlink cli c w.people }

abbrev pub set_from_split : ℕ → World → World
set_from_split x w = record w {
  people = record w.people { from_split = update w.people.from_split x true };
}

-- `while (first child) { CliSetFromSplit(first child); siclient_free(first child); }`
unfoldable pub free_children : (ℕ → World → Option World) → ℕ → Bool → ℕ → World → Option World
free_children free zero cli c w = none
free_children free (suc fuel) cli c w =
    let x = (children cli c w.people).first in
    elim (x == 0) [
      | true ↦ some w
      | false ↦ elim (free x (set_from_split x w)) [
        | none ↦ none
        | some v ↦ free_children free fuel cli c v
      ]
    ]

-- The loops over the servers and the clients below a server, which is then unlinked itself.
unfoldable pub free_server : (ℕ → World → Option World) → ℕ → World → Option World
unfolding free_children unlink
free_server free c w = elim (free_children free (suc w.people.numgservers) false c w) [
  | none ↦ none
  | some v ↦ elim (free_children free (suc v.people.numclients) true c v) [
    | none ↦ none
    | some u ↦ some (unlinked false c u)
  ]
]

-- From the test for a jupe on.
unfoldable pub free_rest : (ℕ → World → Option World) → ℕ → World → Option World
unfolding free_server siclient_send_jupe unlink
free_rest free c w =
    if is_kept w.people c
    then some (record w { events = w.events ++ siclient_send_jupe c w.people })
    else let v = record w { events = w.events ++ take_back c w.people } in
      if is_client w.people c then some (unlinked true c v) else free_server free c v

-- The fuel is for the height of the tree below the client.
unfoldable pub siclient_free : (Text → Text → Bool) → ℕ → ℕ → World → Option World
unfolding forget free_rest
siclient_free same zero c w = none
siclient_free same (suc fuel) c w = elim (w.people.conn c == 0) [
  | false ↦ some (record w { events = w.events ++ conn_deleted c ∷ [] })
  | true ↦ elim (siclient_del_channels same c w.net) [
    | none ↦ none
    | some n ↦
        free_rest (siclient_free same fuel) c
          (record { net = n; people = forget c w.people; events = w.events ++ removed c ∷ [] })
  ]
]
