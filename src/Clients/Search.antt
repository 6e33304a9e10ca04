-- ===== src/Clients/Search.antt =====
-- The functions of daemon/hash.c that find clients, and siclient_change_nick. `same` is ircd_strcmp and
-- `matches` is ircd_match, true where these return 0. A loop has fuel for each of the records that
-- its list can have and one round more.
use efnet_services.Common.{
  ℕ, suc, ◌+◌, ◌%◌, Bool, not, ◌&&◌, Option, none, some, ◌==◌, if◌then◌else◌, update,
}
use efnet_services.Run.{Text}
use efnet_services.Links.{scan}
use efnet_services.Network.{Code, ok, enomem}
use efnet_services.Clients.{Clients}
use efnet_services.Clients.Lists.{client_hashsize, sihash_compute_client, hash_add, hash_del}

-- The number of records in the hash table.
abbrev pub known : Clients → ℕ
known p = p.numclients + p.numgservers

module _ (to_lower : ℕ → ℕ) (same matches : Text → Text → Bool) where
  unfoldable pub siclient_find : Text → Clients → Option ℕ
  unfolding scan sihash_compute_client
  siclient_find name p =
      let hashv = sihash_compute_client to_lower name in
      scan 0 (suc (known p)) (λ c. p.hashv c == hashv && same name (p.name c)) p.h_links
        (p.buckets (hashv % client_hashsize))

  -- The client with the name, or else the first whose name is a mask that the name matches.
  unfoldable pub siclient_find_incl_hm : Text → Clients → Option ℕ
  unfolding siclient_find scan
  siclient_find_incl_hm name p = elim (siclient_find name p) [
    | none ↦ none
    | some c ↦
        if c == 0
        then scan 0 (suc (known p)) (λ m. matches (p.name m) name) p.h_links
            (p.buckets client_hashsize)
        else some c
  ]

  unfoldable pub siclient_find_match_server : Text → Clients → Option ℕ
  unfolding scan
  siclient_find_match_server name p =
      scan 0 (suc p.numgservers) (λ c. matches name (p.name c)) p.a_links p.si_servers

-- The first server below SIMe that has a connection.
unfoldable pub siclient_get_uplink : Clients → Option ℕ
unfolding scan
siclient_get_uplink p =
    scan 0 (suc p.numgservers) (λ c. not (p.conn c == 0)) p.cs_links (p.servers p.me)

abbrev pub siclient_is_me : ℕ → Clients → Bool
siclient_is_me c p = c == p.me

-- `newname` is false when there is no memory for the copy of the name.
unfoldable pub siclient_change_nick : (ℕ → ℕ) → Bool → ℕ → Text → Clients → Code × Clients
unfolding hash_add hash_del
siclient_change_nick to_lower newname c nick p =
    let h = hash_del c p in
    let renamed = hash_add to_lower c (record h { name = update h.name c nick }) in
    if newname then (ok, renamed) else (enomem, p)
