-- ===== src/AdminDb/UserHost/Remove.antt =====
-- siadmindb_account_remove removes all masks of the account before the account.
use efnet_services.Common.{
  ℕ, zero, suc, ◌≡◌, refl, sym, ap, ◌∙◌, subst, ◌≤◌, ◌<◌, List, [], ◌∷◌, ◌++◌, length, All, eq→==,
  ne→==, arith, map-update, update_own,
}
use efnet_services.Links.Insert.{Lists, del_from_list-Lists}
use efnet_services.Links.{del_from_list}
use efnet_services.Run.{done, npos, sub32}
use efnet_services.Region
use efnet_services.Table.{Table, home}
use efnet_services.Table.Index as Shared
use efnet_services.Table.Remove.{put_at}
use efnet_services.AdminDb.Store.{AdminDb, Platform, table_of, userhosts_of, check, del_space}
use efnet_services.AdminDb.Account.{unlink_account}
use efnet_services.AdminDb.Account.Index.{Index, unlink_account-Index}
use efnet_services.AdminDb.UserHost.{
  with_userhosts, unlink_userhost, remove_empty, userhost_remove, remove_loop, account_remove,
}

-- The list of the account's masks stands for `us`: each names the account, and
-- `aa_userhosts_num` counts them.
pub record Masks (db : AdminDb) (pos : ℕ) (us : List ℕ) : Type 0 where
  pub listed : Lists npos (userhosts_of pos db) us
  pub owned : All (λ u. (db.userhost u).account_offset ≡ pos) us
  pub counted : (db.account pos).userhosts_num ≡ length us
  pub bounded : (db.account pos).userhosts_num ≤ npos

remove_empty_none :
    (pos : ℕ) (db : AdminDb)
    → (db.account pos).userhosts_num ≡ 0
    → remove_empty pos db ≡ (done tt, unlink_account pos db)
unfolding remove_empty
remove_empty_none pos db e = rw e refl

abbrev pub IsFresh : AdminDb → Type 0
IsFresh db = db.region.size ≡ db.region.data_size

module _ (db : AdminDb) (pos u : ℕ) (us : List ℕ) (masks : Masks db pos (u ∷ us)) where
  abbrev left : AdminDb
  left = unlink_userhost u db

  owner : (db.userhost u).account_offset ≡ pos
  owner = masks.owned.0

  unlink_userhost-Masks : Masks left pos us
  unfolding unlink_userhost del_space
  unlink_userhost-Masks =
      let e = eq→== pos pos refl in
      rw owner (record {
        listed = rw e (del_from_list-Lists npos u [] us (userhosts_of pos db) masks.listed);
        owned = masks.owned.1;
        counted = rw e (omega (arith, masks.counted, masks.bounded));
        bounded = rw e (omega (arith, masks.counted, masks.bounded));
      })

  unlink_userhost-table : table_of left ≡ table_of db
  unfolding unlink_userhost del_space
  unlink_userhost-table =
      let acct = (db.userhost u).account_offset in
      let a = db.account acct in
      ap (λ k. record (table_of db) { hashv = k })
        (map-update (λ c. c.hashv) db.account acct
            (with_userhosts (del_from_list npos u (userhosts_of acct db)).first
              (sub32 a.userhosts_num 1) a)
          ∙ update_own (λ c. (db.account c).hashv) acct)

  unlink_userhost-IsFresh : IsFresh db → IsFresh left
  unfolding unlink_userhost del_space Region.del_space
  unlink_userhost-IsFresh fresh = fresh

module _ (calls : Platform) where
  check_fresh : (db : AdminDb) → IsFresh db → check calls db ≡ (done tt, db)
  unfolding check Region.check
  check_fresh db fresh = rw (eq→== db.region.size db.region.data_size fresh) refl

  userhost_remove_fresh :
      (db : AdminDb) (u : ℕ)
      → IsFresh db
      → userhost_remove calls u db ≡ (done tt, unlink_userhost u db)
  unfolding userhost_remove
  userhost_remove_fresh db u fresh = rw (check_fresh db fresh) refl

  -- The masks go one by one, and then the account.
  remove_loop-unlinks :
      (fuel : ℕ) (us : List ℕ) (pos : ℕ) (db : AdminDb)
      → length us < fuel
      → IsFresh db
      → Masks db pos us
      → (r : AdminDb) × (remove_loop calls fuel pos db ≡ (done tt, unlink_account pos r))
        × (table_of r ≡ table_of db)
  unfolding remove_loop
  remove_loop-unlinks zero us pos db h fresh masks = absurd (omega arith)
  remove_loop-unlinks (suc fuel) [] pos db h fresh masks =
      (db, rw masks.listed.starts (remove_empty_none pos db masks.counted), refl)
  remove_loop-unlinks (suc fuel) (u ∷ us) pos db h fresh masks =
      let (r, e, same) =
        remove_loop-unlinks fuel us pos (unlink_userhost u db) (omega arith)
          (unlink_userhost-IsFresh db pos u us masks fresh)
          (unlink_userhost-Masks db pos u us masks) in
      (
        r,
        rw
            (
              masks.listed.starts,
              ne→== u npos masks.listed.linked.0,
              userhost_remove_fresh db u fresh,
            )
            e,
        same ∙ unlink_userhost-table db pos u us masks,
      )

  module _ (db : AdminDb) (pos : ℕ) (xs ys us vs : List ℕ) (chain : ℕ → List ℕ)
      (index : Index db (xs ++ pos ∷ ys) chain)
      (here : chain (home (table_of db) pos) ≡ us ++ pos ∷ vs) where
    removed :
        0 < db.info.hashtable_size
        → db.info.num_accounts ≤ npos
        → (r : AdminDb) → table_of r ≡ table_of db
        → Index (unlink_account pos r) (xs ++ ys) (put_at chain (home (table_of db) pos) (us ++ vs))
    removed positive small r same =
        subst (λ t. Index (unlink_account pos r) (xs ++ ys) (put_at chain (home t pos) (us ++ vs)))
          same
          (unlink_account-Index r pos xs ys us vs chain
            (subst (λ t. Shared.Index npos t (xs ++ pos ∷ ys) chain) (sym same) index)
            (ap (λ t. chain (home t pos)) same ∙ here)
            (omega (arith, positive, ap (λ (t : Table). t.slots) same))
            (omega (arith, small, ap (λ (t : Table). t.num) same)))

    -- On a well-formed index with a hash table that is not empty, in a file whose mapping is up to
    -- date, siadmindb_account_remove of an account with a well-formed list of masks returns 0, its
    -- assertion holds, and the index is well-formed without the account. It never runs out of fuel.
    pub account_remove-Index :
        (masks : List ℕ)
        → IsFresh db
        → Masks db pos masks
        → 0 < db.info.hashtable_size
        → db.info.num_accounts ≤ npos
        → ((account_remove calls pos db).0 ≡ done tt)
          × Index
              (account_remove calls pos db).1
              (xs ++ ys)
              (put_at chain (home (table_of db) pos) (us ++ vs))
    unfolding account_remove
    account_remove-Index masks fresh good positive small =
        let (r, e, same) =
          remove_loop-unlinks (suc (db.account pos).userhosts_num) masks pos db
            (omega (arith, good.counted)) fresh good in
        (
          ap (λ k. k.0) e,
          subst (λ k. Index k (xs ++ ys) (put_at chain (home (table_of db) pos) (us ++ vs)))
              (sym (ap (λ k. k.1) e)) (removed positive small r same),
        )
