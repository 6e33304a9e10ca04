-- ===== src/Network/Find.antt =====
-- What sichannel_find of daemon/hash.c finds among the channels.
use efnet_services.Common.{
  ℕ, ◌≡◌, refl, ◌∙◌, ◌≢◌, ◌⊎◌, inl, inr, ◌%◌, ◌&&◌, Bool, true, false, some, ◌==◌, All, All-zip, In,
  All-In, Bool-cases, eq→==, ==→eq,
}
use efnet_services.Run.{Text}
use efnet_services.Table.Find.{scan-Searched}
use efnet_services.Network.{Net}
use efnet_services.Network.Channels.{sihash_compute_channel, sichannel_find}
use efnet_services.Network.Whole.{View, Whole}

module _ (to_lower : ℕ → ℕ) (same : Text → Text → Bool) where
  -- A listed channel with the hash and the name, or NULL when none of those whose names have that hash
  -- has the name.
  abbrev pub Finds : Text → Net → View → ℕ → Type 0
  Finds name n v r =
      ((r ≢ 0)
        × In r v.cs
        × (same name (n.ch_name r) ≡ true)
        × (n.table.hashv r ≡ sihash_compute_channel to_lower name))
      ⊎ ((r ≡ 0)
          × All
              (λ ch.
                sihash_compute_channel to_lower (n.ch_name ch)
                  ≡ sihash_compute_channel to_lower name
                → same name (n.ch_name ch) ≡ false)
              v.cs)

  both : (a b : Bool) → (a && b) ≡ true → (a ≡ true) × (b ≡ true)
  both true true e = (refl, refl)
  both true false e = cc
  both false b e = cc

  clash : (a b : Bool) → (a && b) ≡ false → a ≡ true → b ≡ true → ⊥
  clash a b e f g = cc

  -- The search of a well-formed network ends, at a listed channel whose hash is that of the name and
  -- which ircd_strcmp says has the name or, when ircd_strcmp says it of none of the listed channels
  -- whose names have that hash, at NULL.
  pub sichannel_find-Finds :
      (name : Text) (n : Net) (v : View)
      → Whole to_lower same n v
      → (r : ℕ) × (sichannel_find same to_lower name n ≡ some r) × Finds name n v r
  unfolding sichannel_find
  sichannel_find-Finds name n v whole =
      let t = n.table in
      let hash = sihash_compute_channel to_lower name in
      let test = λ (ch : ℕ). t.hashv ch == hash && same name (n.ch_name ch) in
      let i = whole.indexed in
      let (r, run, found) =
        scan-Searched 0 t v.cs v.buckets i.index test hash
          (λ ch e.
            ==→eq (t.hashv ch) hash (both (t.hashv ch == hash) (same name (n.ch_name ch)) e).0)
          i.positive in
      let holds =
        λ (ch : ℕ) (e : test ch ≡ true). both (t.hashv ch == hash) (same name (n.ch_name ch)) e in
      (
        r,
        run,
        elim found [
          | inl (proper, good, inside) ↦ inl (
            proper,
            All-In (λ ch. In ch v.cs) r (v.buckets (hash % t.slots)) (i.within (hash % t.slots))
                inside,
            (holds r good).1,
            ==→eq (t.hashv r) hash (holds r good).0,
          )
          | inr (z, none_of) ↦ inr (
            z,
            All-zip (λ ch. test ch ≡ false)
                (λ ch. t.hashv ch ≡ sihash_compute_channel to_lower (n.ch_name ch))
                (λ ch.
                  sihash_compute_channel to_lower (n.ch_name ch) ≡ hash
                  → same name (n.ch_name ch) ≡ false)
                v.cs
                (λ ch bad is same_hash. elim (Bool-cases (same name (n.ch_name ch))) [
                  | inr no_match ↦ no_match
                  | inl y ↦ absurd (
                      clash (t.hashv ch == hash) (same name (n.ch_name ch)) bad
                        (eq→== (t.hashv ch) hash (is ∙ same_hash)) y)
                ])
                none_of i.hashed,
          )
        ],
      )
