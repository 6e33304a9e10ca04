-- ===== src/AdminDb/Account.antt =====
-- The accounts: siadmindb_account_find and siadmindb_account_create of modules/admindb/admindb.c, and
-- _siadmindb_account_remove. A bucket is searched with fuel for one record more than there are
-- accounts.
pub mod Index
pub mod Find
use efnet_services.Common.{
  ℕ, zero, suc, ◌+◌, ◌%◌, Bool, true, false, Option, none, some, ◌&&◌, ◌==◌, List, [], ◌∷◌,
  if◌then◌else◌, update, length,
}
use efnet_services.Links.{add_to_list, del_from_list, scan}
use efnet_services.Run.{
  Result, done, fail, enoent, eexist, stuck, npos, add32, sub32, Call, ◌>>=◌, ◌>>◌, Text,
}
use efnet_services.AdminDb.Store.{
  AdminDb, Account, Platform, write_account, all_accounts, account_bucket, check, del_space,
  get_space, hash_compute,
}

-- "**NP**"
abbrev pub no_passwd : Text
no_passwd = 42 ∷ 42 ∷ 78 ∷ 80 ∷ 42 ∷ 42 ∷ []

-- The fields that siadmindb_account_create sets.
abbrev pub new_account : Text → ℕ → ℕ → Account
new_account name size hashv = record {
  size = size;
  hashv = hashv;
  last_login = 0;
  login_fail_time = 0;
  login_fail_num = 0;
  passwd_fail_time = 0;
  passwd_fail_num = 0;
  expires = 0;
  flags = 0;
  passwd = no_passwd;
  userhosts = npos;
  userhosts_num = 0;
  name = name;
}

-- The part of siadmindb_account_create that sets the fields and links the record.
unfoldable pub fill_account : Text → ℕ → ℕ → ℕ → AdminDb → AdminDb
fill_account name pos size hashv db =
    let hv = hashv % db.info.hashtable_size in
    let h = add_to_list npos pos (account_bucket hv db) in
    let a = add_to_list npos pos (all_accounts db) in
    record db {
      account = update db.account pos (new_account name size hashv);
      account_h = h.links;
      buckets = update db.buckets hv h.first;
      account_a = a.links;
      info = record (db.info) { accounts = a.first; num_accounts = add32 db.info.num_accounts 1 };
    }

-- _siadmindb_account_remove
unfoldable pub unlink_account : ℕ → AdminDb → AdminDb
unlink_account pos db =
    let a = del_from_list npos pos (all_accounts db) in
    let hv = (db.account pos).hashv % db.info.hashtable_size in
    let h = del_from_list npos pos (account_bucket hv db) in
    del_space pos (db.account pos).size (record db {
      account_a = a.links;
      account_h = h.links;
      buckets = update db.buckets hv h.first;
      info = record (db.info) { accounts = a.first; num_accounts = sub32 db.info.num_accounts 1 };
    })

module _ (calls : Platform) where
  -- The test of the loop of _siadmindb_account_find.
  abbrev pub is_account : AdminDb → Text → ℕ → ℕ → Bool
  is_account db name hashv pos =
      (db.account pos).hashv == hashv && calls.same_name name (db.account pos).name

  unfoldable pub account_loop : ℕ → AdminDb → Text → ℕ → ℕ → Option ℕ
  unfolding scan
  account_loop fuel db name hashv pos = scan npos fuel (is_account db name hashv) db.account_h pos

  -- _siadmindb_account_find
  unfoldable pub find_in_bucket : AdminDb → ℕ → Text → ℕ → Result ℕ
  unfolding account_loop
  find_in_bucket db first name hashv =
      elim (account_loop (suc db.info.num_accounts) db name hashv first) [
        | none ↦ fail stuck
        | some pos ↦ if pos == npos then fail enoent else done pos
      ]

  -- siadmindb_account_find
  unfoldable pub account_find : Text → Call AdminDb ℕ
  account_find name = check calls >> λ db.
      let hashv = hash_compute calls name in
      (find_in_bucket db (db.buckets (hashv % db.info.hashtable_size)) name hashv, db)

  -- The rest of siadmindb_account_create, from the writes of `aa_size` and `aa_hashv` on.
  unfoldable pub create_at : Text → ℕ × ℕ → Call AdminDb ℕ
  create_at name (pos, size) db =
      let hashv = hash_compute calls name in
      let db₁ = write_account pos (record (db.account pos) { size = size; hashv = hashv }) db in
      elim (find_in_bucket db₁ (db₁.buckets (hashv % db₁.info.hashtable_size)) name hashv) [
        | done _ ↦ (fail eexist, del_space pos size db₁)
        | fail stuck ↦ (fail stuck, db₁)
        | fail _ ↦ (done pos, fill_account name pos size hashv db₁)
      ]

  -- siadmindb_account_create
  unfoldable pub account_create : Text → Call AdminDb ℕ
  account_create name =
      check calls >> (get_space calls (add32 calls.account_bytes (length name)) >>= create_at name)
