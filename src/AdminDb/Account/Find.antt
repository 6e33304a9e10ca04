-- ===== src/AdminDb/Account/Find.antt =====
-- siadmindb_account_find against the list of all accounts.
use efnet_services.Common.{
  ℕ, ◌≡◌, refl, ◌⊎◌, inl, inr, ◌<◌, ◌%◌, List, true, false, All, In, eq→==, ne→==, arith, All-zip,
  Bool, ◌&&◌, ◌==◌, ◌∙◌,
}
use efnet_services.Table.Find.{scan-Searched}
use efnet_services.Run.{done, fail, enoent, npos, Text, Result}
use efnet_services.AdminDb.Store.{AdminDb, Account, Platform, table_of, check, hash_compute}
use efnet_services.AdminDb.Account.{is_account, account_loop, find_in_bucket, account_find}
use efnet_services.AdminDb.Account.Index.{Index}

-- The hash of the record is that of its name.
abbrev pub IsHashed : Platform → Account → Type 0
IsHashed calls a = a.hashv ≡ hash_compute calls a.name

module _ (calls : Platform) (db : AdminDb) (cs : List ℕ) (chain : ℕ → List ℕ)
    (index : Index db cs chain) (name : Text) where
  abbrev hash : ℕ
  hash = hash_compute calls name

  is_account-hash :
      (pos : ℕ) → is_account calls db name hash pos ≡ true → (db.account pos).hashv ≡ hash
  is_account-hash pos h = ground arith

  -- The first account of the bucket that passes the test of the loop, or ENOENT when none passes.
  abbrev Searched : Result ℕ → Type 0
  Searched a =
      ((pos : ℕ) × (a ≡ done pos)
        × (is_account calls db name hash pos ≡ true)
        × In pos (chain (hash % db.info.hashtable_size)))
      ⊎ ((a ≡ fail enoent) × All (λ c. is_account calls db name hash c ≡ false) cs)

  find_in_bucket-Searched :
      0 < db.info.hashtable_size
      → Searched (find_in_bucket calls db (db.buckets (hash % db.info.hashtable_size)) name hash)
  unfolding find_in_bucket account_loop
  find_in_bucket-Searched positive =
      let (r, e, found) =
        scan-Searched npos (table_of db) cs chain index (is_account calls db name hash) hash
          is_account-hash positive in
      rw (e, find_in_bucket)
        (elim found [
          | inl (n, good, here) ↦ rw (ne→== r npos n) (inl (r, refl, good, here))
          | inr (i, none_of) ↦ rw (eq→== r npos i) (inr (refl, none_of))
        ])

  -- An account of the bucket whose hash is that of the name and whose name is the same, or ENOENT and
  -- no account whose name has that hash has the same name.
  abbrev pub Finds : Result ℕ → Type 0
  Finds a =
      ((pos : ℕ) × (a ≡ done pos)
        × ((db.account pos).hashv ≡ hash_compute calls name)
        × (calls.same_name name (db.account pos).name ≡ true)
        × In pos (chain (hash_compute calls name % db.info.hashtable_size)))
      ⊎ ((a ≡ fail enoent)
          × All
              (λ c.
                hash_compute calls (db.account c).name ≡ hash_compute calls name
                → calls.same_name name (db.account c).name ≡ false)
              cs)

  both : (a b : Bool) → (a && b) ≡ true → b ≡ true
  both true true e = refl
  both true false e = cc
  both false b e = cc

  other : (a b : Bool) → a ≡ true → (a && b) ≡ false → b ≡ false
  other true b e f = f
  other false b e f = cc

  Searched-Finds :
      (a : Result ℕ) → All (λ c. IsHashed calls (db.account c)) cs → Searched a → Finds a
  Searched-Finds a hashed (inl (pos, e, good, i)) =
      let same =
        both ((db.account pos).hashv == hash) (calls.same_name name (db.account pos).name) good in
      inl (pos, e, is_account-hash pos good, same, i)
  Searched-Finds a hashed (inr (e, f)) = inr (
    e,
    All-zip (λ c. IsHashed calls (db.account c)) (λ c. is_account calls db name hash c ≡ false)
        (λ c.
          hash_compute calls (db.account c).name ≡ hash_compute calls name
          → calls.same_name name (db.account c).name ≡ false)
        cs
        (λ c h g i.
          other ((db.account c).hashv == hash) (calls.same_name name (db.account c).name)
            (eq→== (db.account c).hashv hash (h ∙ i)) g)
        hashed f,
  )

  -- On a well-formed index with a hash table that is not empty, with the mapping up to date, and when
  -- the hash of each account is that of its name, the call changes nothing. It returns an account of
  -- the bucket with the hash of the name whose own name is the same, or ENOENT when none of the
  -- accounts of the database whose names have that hash has the same name; it never runs out of fuel.
  pub account_find-Finds :
      0 < db.info.hashtable_size
      → check calls db ≡ (done tt, db)
      → All (λ c. IsHashed calls (db.account c)) cs
      → ((account_find calls name db).1 ≡ db) × Finds (account_find calls name db).0
  unfolding account_find
  account_find-Finds positive ok hashed =
      rw ok (refl, Searched-Finds _ hashed (find_in_bucket-Searched positive))
