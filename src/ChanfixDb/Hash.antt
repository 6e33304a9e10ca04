-- ===== src/ChanfixDb/Hash.antt =====
-- sihash_init, sihash_compute_client and sihash_compute_channel of modules/chanfixdb/chanfixdb.c.
pub mod Case
use efnet_services.Common.{ℕ, zero, suc, ◌+◌, ◌*◌, ◌%◌, [], ◌∷◌, ◌==◌, if◌then◌else◌}
use efnet_services.Run.{Text, u32}

module _ (to_lower : ℕ → ℕ) where
  -- `_hashtab[c]`
  abbrev pub hashtab : ℕ → ℕ
  hashtab c = (to_lower c * 109) % u32

  unfoldable pub client_loop : ℕ → Text → ℕ
  client_loop hash [] = hash
  client_loop hash (c ∷ name) = client_loop ((hash * 2 % u32 + hashtab c) % u32) name

  unfoldable pub hash_compute_client : Text → ℕ
  unfolding client_loop
  hash_compute_client name = client_loop 1 name

  unfoldable pub channel_loop : ℕ → ℕ → Text → ℕ
  channel_loop i hash [] = hash
  channel_loop zero hash (c ∷ name) = hash
  channel_loop (suc i) hash (c ∷ name) =
      let rest = channel_loop i ((hash * 2 % u32 + hashtab c + i * 2) % u32) name in
      if i == 0 then hash else rest

  unfoldable pub hash_compute_channel : Text → ℕ
  unfolding channel_loop
  hash_compute_channel name = channel_loop 20 1 name
