-- ===== src/Clients/Named.antt =====
-- What siclient_find, siclient_find_incl_hm and siclient_change_nick of daemon/hash.c do on lists that
-- are well-formed.
use efnet_services.Common.{
  ℕ, suc, ◌≡◌, refl, sym, ap, ◌∙◌, subst, ◌≢◌, ◌⊎◌, inl, inr, ◌≤◌, ◌%◌, [], ◌∷◌, ◌++◌, ◌==◌,
  if◌then◌else◌, ◌&&◌, Bool, true, false, some, length, length-append, head_or, All, All-In, Avoids,
  In, update, Bool-cases, eq→==, ==→eq, ne→==, arith,
}
use efnet_services.Run.{Text}
use efnet_services.Links.{scan}
use efnet_services.Links.Scan.{scan-Found}
use efnet_services.Links.Family.{
  In-left, In-right, In-middle, Distinct-length, family-proper, added-In,
}
use efnet_services.Network.Joined.{dec_position, update-Replaced}
use efnet_services.Clients.{Clients, World}
use efnet_services.Clients.Lists.{
  is_client, client_hashsize, sihash_compute_client, starts_with_star, hash_add, siclient_add,
}
use efnet_services.Clients.Add.{with_client}
use efnet_services.Clients.Formed.{View, Formed}
use efnet_services.Clients.Search.{known, siclient_find}

abbrev pub slot_of : (ℕ → ℕ) → Text → ℕ
slot_of to_lower name =
    if starts_with_star name
    then client_hashsize
    else sihash_compute_client to_lower name % client_hashsize

-- The hash of a record in the hash table is that of its name, and so is the bucket.
abbrev pub Named : (ℕ → ℕ) → Clients → View → Type 0
Named to_lower p v =
    (k c : ℕ)
    → In c (v.bucket k)
    → (p.hashv c ≡ sihash_compute_client to_lower (p.name c)) × (k ≡ slot_of to_lower (p.name c))

module _ (to_lower : ℕ → ℕ) (same matches : Text → Text → Bool) (rank : ℕ → ℕ) where
  -- A record with the hash and the name, or NULL when none of those that are no masks and whose names
  -- have that hash has the name.
  abbrev pub Finds : Text → Clients → View → ℕ → Type 0
  Finds name p v r =
      ((r ≢ 0)
        × In r (v.all (is_client p r))
        × (same name (p.name r) ≡ true)
        × (p.hashv r ≡ sihash_compute_client to_lower name))
      ⊎ ((r ≡ 0)
          × ((b : Bool) (c : ℕ)
              → In c (v.all b)
              → starts_with_star (p.name c) ≡ false
              → sihash_compute_client to_lower (p.name c) ≡ sihash_compute_client to_lower name
              → same name (p.name c) ≡ false))

  both : (a b : Bool) → (a && b) ≡ true → (a ≡ true) × (b ≡ true)
  both true true e = (refl, refl)
  both true false e = cc
  both false b e = cc

  clash : (a b : Bool) → (a && b) ≡ false → a ≡ true → b ≡ true → ⊥
  clash a b e f g = cc

  -- A bucket has no more records than there are.
  bucket_length :
      (p : Clients) (v : View) (k : ℕ) → Formed rank [] p v → length (v.bucket k) ≤ known p
  bucket_length p v k formed =
      let short =
        Distinct-length (v.bucket k) (v.all true ++ v.all false) (formed.hash.lists k).distinct
          (λ c i. place c (is_client p c) (formed.hashed k c i).2) in
      omega (
        arith,
        short,
        length-append (v.all true) (v.all false),
        formed.numclients.0,
        formed.numgservers.0,
      )
    where
      place : (c : ℕ) (b : Bool) → In c (v.all b) → In c (v.all true ++ v.all false)
      place c true i = In-left c (v.all true) (v.all false) i
      place c false i = In-right c (v.all true) (v.all false) i

  -- siclient_find ends on well-formed lists. It returns a record whose hash is that of the name and
  -- which ircd_strcmp says has the name, or NULL when ircd_strcmp says it of none of the records that
  -- are no masks and whose names have that hash.
  pub siclient_find-Finds :
      (name : Text) (p : Clients) (v : View)
      → Formed rank [] p v
      → Named to_lower p v
      → (r : ℕ) × (siclient_find to_lower same matches name p ≡ some r) × Finds name p v r
  unfolding siclient_find
  siclient_find-Finds name p v formed named =
      let hash = sihash_compute_client to_lower name in
      let k = hash % client_hashsize in
      let test = λ (c : ℕ). p.hashv c == hash && same name (p.name c) in
      let own = formed.hash.lists k in
      let (r, e, found) =
        scan-Found 0 test p.h_links (suc (known p)) 0 (v.bucket k)
          (omega (arith, bucket_length p v k formed)) own.linked in
      let starts : p.buckets k ≡ head_or 0 (v.bucket k) = own.starts in
      (
        r,
        ap (λ (j : ℕ). scan 0 (suc (known p)) test p.h_links j) starts ∙ e,
        elim found [
          | inl (z, none_of) ↦ inr (
            z,
            λ b c i plain same_hash. elim (Bool-cases (same name (p.name c))) [
              | inr n ↦ n
              | inl y ↦ absurd (miss b c i plain same_hash y none_of)
            ],
          )
          | inr (us, vs, split, good, before) ↦
              let i = subst (In r) (sym split) (In-middle r us vs) in
              inl (
                λ z.
                    All-In (λ j. 0 ≢ j) r (v.bucket k)
                      (family-proper 0 dec_position p.buckets p.h_links v.bucket formed.hash k) i
                      (sym z),
                (formed.hashed k r i).2,
                (both (p.hashv r == hash) (same name (p.name r)) good).1,
                ==→eq (p.hashv r) hash (both (p.hashv r == hash) (same name (p.name r)) good).0,
              )
        ],
      )
    where
      miss :
          (b : Bool) (c : ℕ)
          → In c (v.all b)
          → starts_with_star (p.name c) ≡ false
          → sihash_compute_client to_lower (p.name c) ≡ sihash_compute_client to_lower name
          → same name (p.name c) ≡ true
          → All
              (λ c.
                (p.hashv c == sihash_compute_client to_lower name && same name (p.name c)) ≡ false)
              (v.bucket (sihash_compute_client to_lower name % client_hashsize))
          → ⊥
      miss b c i plain same_hash y none_of =
          let hash = sihash_compute_client to_lower name in
          let there = hashed_in (formed.placed b c i).1 in
          let (h, k) = named (p.hv c) c there in
          let slot : p.hv c ≡ hash % client_hashsize =
            k ∙ rw plain (ap (λ (j : ℕ). j % client_hashsize) same_hash) in
          clash (p.hashv c == hash) (same name (p.name c))
            (All-In (λ c. (p.hashv c == hash && same name (p.name c)) ≡ false) c
              (v.bucket (hash % client_hashsize)) none_of
              (subst (λ (j : ℕ). In c (v.bucket j)) slot there))
            (eq→== (p.hashv c) hash (h ∙ same_hash)) y
        where
          hashed_in : In c [] ⊎ In c (v.bucket (p.hv c)) → In c (v.bucket (p.hv c))
          hashed_in (inr j) = j
          hashed_in (inl j) = absurd j

  -- siclient_add puts a record in the bucket of its name, and the others stay in theirs.
  pub siclient_add-Named :
      (from c now : ℕ) (w : World) (v : View)
      → Formed rank [] w.people v
      → Named to_lower w.people v
      → ((b : Bool) → Avoids c (v.all b))
      → Named to_lower
          (siclient_add to_lower from c now w).people
          (with_client to_lower rank from c now w v)
  unfolding siclient_add hash_add
  siclient_add-Named from c now w v formed named fresh k x i =
      let p = w.people in
      let s = slot_of to_lower (p.name c) in
      elim (added-In 0 dec_position p.buckets p.buckets p.h_links v.bucket
        (update v.bucket s (c ∷ v.bucket s)) s formed.hash c x k
        (update-Replaced v.bucket s (c ∷ v.bucket s)) i) [
          | inl (e, f) ↦ (
            rw (eq→== x c e) (ap (λ (j : ℕ). sihash_compute_client to_lower (p.name j)) (sym e)),
            f ∙ ap (λ (j : ℕ). slot_of to_lower (p.name j)) (sym e),
          )
          | inr h ↦ let (a, b) = named k x h in (rw (ne→== x c (old x k h)) a, b)
        ]
    where
      old : (x k : ℕ) → In x (v.bucket k) → x ≢ c
      old x k h e =
          All-In (λ z. c ≢ z) x (v.all (is_client w.people x)) (fresh (is_client w.people x))
            (formed.hashed k x h).2 (sym e)
