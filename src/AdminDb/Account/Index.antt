-- ===== src/AdminDb/Account/Index.antt =====
-- The index of the accounts: the list of all of them, and a chain for each bucket of the hash table.
use efnet_services.Common.{
  ℕ, ◌≡◌, refl, sym, ap, subst, ◌≢◌, ◌≤◌, ◌<◌, ◌%◌, List, ◌∷◌, ◌++◌, Avoids, map-update,
}
use efnet_services.Run.{npos, Text}
use efnet_services.Table.{home, add_record, remove_record}
use efnet_services.Table.Index as Shared
use efnet_services.Table.Index.{add_at, add_record-Index}
use efnet_services.Table.Remove.{put_at, remove_record-Index}
use efnet_services.AdminDb.Store.{AdminDb, table_of, del_space}
use efnet_services.AdminDb.Account.{new_account, fill_account, unlink_account}

-- `cs` are the accounts of the database and `chain hv` those of bucket `hv`.
abbrev pub Index : AdminDb → List ℕ → (ℕ → List ℕ) → Type 0
Index db = Shared.Index npos (table_of db)

table_of-fill_account :
    (name : Text) (pos size hashv : ℕ) (db : AdminDb)
    → add_record npos pos hashv (table_of db) ≡ table_of (fill_account name pos size hashv db)
unfolding fill_account add_record
table_of-fill_account name pos size hashv db =
    ap (λ k. record (table_of (fill_account name pos size hashv db)) { hashv = k })
      (sym (map-update (λ c. c.hashv) db.account pos (new_account name size hashv)))

table_of-unlink_account :
    (pos : ℕ) (db : AdminDb)
    → remove_record npos pos (table_of db) ≡ table_of (unlink_account pos db)
unfolding unlink_account del_space remove_record
table_of-unlink_account pos db = refl

-- When the index is well-formed, the hash table is not empty and the number of accounts is below
-- the largest u_int, an account at a new position becomes the first of the list of all and of its
-- bucket, the other buckets stay as they are, and the index is well-formed again.
pub fill_account-Index :
    (db : AdminDb) (cs : List ℕ) (chain : ℕ → List ℕ)
    → Index db cs chain
    → (name : Text) (pos size hashv : ℕ) → pos ≢ npos
    → Avoids pos cs
    → ((hv : ℕ) → Avoids pos (chain hv))
    → 0 < db.info.hashtable_size
    → db.info.num_accounts < npos
    → Index
        (fill_account name pos size hashv db)
        (pos ∷ cs)
        (add_at chain (hashv % db.info.hashtable_size) pos)
fill_account-Index db cs chain index name pos size hashv proper new new_chain positive room =
    subst (λ t. Shared.Index npos t (pos ∷ cs) (add_at chain (hashv % db.info.hashtable_size) pos))
      (table_of-fill_account name pos size hashv db)
      (add_record-Index npos (table_of db) cs chain index pos hashv proper new new_chain positive
        room)

-- When the index is well-formed, the hash table is not empty and the number of accounts is a u_int,
-- an unlinked account is gone from the list of all and from its bucket, the other buckets stay as
-- they are, and the index is well-formed again.
pub unlink_account-Index :
    (db : AdminDb) (pos : ℕ) (xs ys us vs : List ℕ) (chain : ℕ → List ℕ)
    → Index db (xs ++ pos ∷ ys) chain
    → chain (home (table_of db) pos) ≡ us ++ pos ∷ vs
    → 0 < db.info.hashtable_size
    → db.info.num_accounts ≤ npos
    → Index (unlink_account pos db) (xs ++ ys) (put_at chain (home (table_of db) pos) (us ++ vs))
unlink_account-Index db pos xs ys us vs chain index here positive small =
    subst (λ t. Shared.Index npos t (xs ++ ys) (put_at chain (home (table_of db) pos) (us ++ vs)))
      (table_of-unlink_account pos db)
      (remove_record-Index npos (table_of db) pos xs ys us vs chain index here positive small)
