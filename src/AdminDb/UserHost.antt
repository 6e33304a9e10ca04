-- ===== src/AdminDb/UserHost.antt =====
-- The masks of an account: siadmindb_userhost_find, _create and _remove of
-- modules/admindb/admindb.c, and siadmindb_account_remove, which removes them all. A list is searched
-- and emptied with fuel for one record more than the account has.
pub mod Remove
pub mod Create
use efnet_services.Common.{
  ℕ, zero, suc, ◌+◌, Bool, true, false, Option, none, some, ◌&&◌, ◌||◌, ◌==◌, List, [], ◌∷◌,
  if◌then◌else◌, update, length,
}
use efnet_services.Links.{add_to_list, del_from_list, scan}
use efnet_services.Run.{
  Result, done, fail, enoent, eexist, einval, aborted, stuck, npos, add32, sub32, Call, continue,
  ◌>>=◌, ◌>>◌, Text,
}
use efnet_services.AdminDb.Store.{
  AdminDb, Account, UserHost, Platform, write_userhost, userhosts_of, check, del_space, get_space,
}
use efnet_services.AdminDb.Account.{unlink_account}

-- The writes of `aa_userhosts` and `aa_userhosts_num`.
abbrev pub with_userhosts : ℕ → ℕ → Account → Account
with_userhosts first num a = record a { userhosts = first; userhosts_num = num }

-- The part of siadmindb_userhost_create that sets the fields and links the record.
unfoldable pub fill_userhost : ℕ → Text → Text → ℕ → ℕ → AdminDb → AdminDb
fill_userhost acct userhost server pos size db =
    let c = add_to_list npos pos (userhosts_of acct db) in
    let a = db.account acct in
    record db {
      userhost =
          update db.userhost pos
            (record { size = size; account_offset = acct; userhost = userhost; server = server });
      userhost_a = c.links;
      account = update db.account acct (with_userhosts c.first (add32 a.userhosts_num 1) a);
    }

-- The writes of siadmindb_userhost_remove.
unfoldable pub unlink_userhost : ℕ → AdminDb → AdminDb
unlink_userhost pos db =
    let acct = (db.userhost pos).account_offset in
    let a = db.account acct in
    let c = del_from_list npos pos (userhosts_of acct db) in
    del_space pos (db.userhost pos).size (record db {
      userhost_a = c.links;
      account = update db.account acct (with_userhosts c.first (sub32 a.userhosts_num 1) a);
    })

-- The end of siadmindb_account_remove, with the assertion of _siadmindb_account_remove.
unfoldable pub remove_empty : ℕ → Call AdminDb (Unit {0})
remove_empty pos db =
    if (db.account pos).userhosts_num == 0
    then (done tt, unlink_account pos db)
    else (fail aborted, db)

module _ (calls : Platform) where
  -- The test of the loop of _siadmindb_userhost_find.
  abbrev pub is_userhost : AdminDb → Text → Text → ℕ → Bool
  is_userhost db userhost server pos =
      calls.matches (db.userhost pos).userhost userhost
      && calls.matches (db.userhost pos).server server

  -- _siadmindb_userhost_find
  unfoldable pub find_userhost : AdminDb → ℕ → Text → Text → Result ℕ
  unfolding scan
  find_userhost db acct userhost server =
      elim (scan npos (suc (db.account acct).userhosts_num) (is_userhost db userhost server)
        db.userhost_a (db.account acct).userhosts) [
          | none ↦ fail stuck
          | some pos ↦ if pos == npos then fail enoent else done pos
        ]

  -- siadmindb_userhost_find
  unfoldable pub userhost_find : ℕ → Text → Text → Call AdminDb ℕ
  unfolding find_userhost
  userhost_find acct userhost server =
      check calls >> λ db. (find_userhost db acct userhost server, db)

  -- The rest of siadmindb_userhost_create, from the write of `auh_size` on.
  unfoldable pub create_userhost_at : ℕ → Text → Text → ℕ × ℕ → Call AdminDb ℕ
  create_userhost_at acct userhost server (pos, size) db =
      let db₁ = write_userhost pos (record (db.userhost pos) { size = size }) db in
      elim (find_userhost db₁ acct userhost server) [
        | done _ ↦ (fail eexist, del_space pos size db₁)
        | fail stuck ↦ (fail stuck, db₁)
        | fail _ ↦ (done pos, fill_userhost acct userhost server pos size db₁)
      ]

  -- siadmindb_userhost_create
  unfoldable pub userhost_create : ℕ → Text → Text → Call AdminDb ℕ
  userhost_create acct userhost server db =
      if length userhost == 0 || length server == 0
      then (fail einval, db)
      else (check calls
            >> (get_space calls (add32 calls.userhost_bytes (length userhost + length server + 1))
                >>= create_userhost_at acct userhost server))
          db

  -- siadmindb_userhost_remove
  unfoldable pub userhost_remove : ℕ → Call AdminDb (Unit {0})
  userhost_remove pos = check calls >> λ db. (done tt, unlink_userhost pos db)

  -- The loop of siadmindb_account_remove, and what is behind it.
  unfoldable pub remove_loop : ℕ → ℕ → Call AdminDb (Unit {0})
  remove_loop zero pos db = (fail stuck, db)
  remove_loop (suc fuel) pos db =
      let rest : Result (Unit {0}) × AdminDb =
        continue (userhost_remove (db.account pos).userhosts db) (λ _. remove_loop fuel pos) in
      if (db.account pos).userhosts == npos then remove_empty pos db else rest

  -- siadmindb_account_remove
  unfoldable pub account_remove : ℕ → Call AdminDb (Unit {0})
  account_remove pos db = remove_loop (suc (db.account pos).userhosts_num) pos db
