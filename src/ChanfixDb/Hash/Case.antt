-- ===== src/ChanfixDb/Hash/Case.antt =====
-- The two hashes do not tell apart names that tolower maps to the same bytes.
use efnet_services.Common.{
  ℕ, zero, suc, ◌≡◌, refl, sym, ap, ◌∙◌, ◌+◌, ◌*◌, ◌%◌, [], ◌∷◌, map, ◌==◌, Bool-cases, inl, inr,
}
use efnet_services.Run.{Text, u32}
use efnet_services.ChanfixDb.Hash.{
  client_loop, hash_compute_client, channel_loop, hash_compute_channel,
}

module _ (to_lower : ℕ → ℕ) where
  client_loop-map :
      (hash : ℕ) (name : Text)
      → client_loop (λ c. c) hash (map to_lower name) ≡ client_loop to_lower hash name
  unfolding client_loop
  client_loop-map hash [] = refl
  client_loop-map hash (c ∷ name) =
      client_loop-map ((hash * 2 % u32 + (to_lower c * 109) % u32) % u32) name

  channel_loop-map :
      (i hash : ℕ) (name : Text)
      → channel_loop (λ c. c) i hash (map to_lower name) ≡ channel_loop to_lower i hash name
  unfolding channel_loop
  channel_loop-map i hash [] = refl
  channel_loop-map zero hash (c ∷ name) = refl
  channel_loop-map (suc i) hash (c ∷ name) = elim (Bool-cases (i == 0)) [
    | inl y ↦ rw y refl
    | inr n ↦
        rw n (channel_loop-map i ((hash * 2 % u32 + (to_lower c * 109) % u32 + i * 2) % u32) name)
  ]

  -- User names that are the same when tolower is applied to each byte have the same hash.
  pub hash_compute_client-map :
      (a b : Text)
      → map to_lower a ≡ map to_lower b
      → hash_compute_client to_lower a ≡ hash_compute_client to_lower b
  unfolding hash_compute_client
  hash_compute_client-map a b e =
      sym (client_loop-map 1 a) ∙ ap (client_loop (λ c. c) 1) e ∙ client_loop-map 1 b

  -- Channel names that are the same when tolower is applied to each byte have the same hash.
  pub hash_compute_channel-map :
      (a b : Text)
      → map to_lower a ≡ map to_lower b
      → hash_compute_channel to_lower a ≡ hash_compute_channel to_lower b
  unfolding hash_compute_channel
  hash_compute_channel-map a b e =
      sym (channel_loop-map 20 1 a) ∙ ap (channel_loop (λ c. c) 20 1) e ∙ channel_loop-map 20 1 b
