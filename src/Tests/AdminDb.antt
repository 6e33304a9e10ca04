-- ===== src/Tests/AdminDb.antt =====
-- An admin database with one account, which has one mask.
use efnet_services.Common.{ℕ, All, ◌≡◌, refl, sym, subst, List, [], ◌∷◌, arith}
use efnet_services.Run.{npos, Text, done}
use efnet_services.Region
use efnet_services.Table.{home}
use efnet_services.Table.Index as Shared
use efnet_services.Table.Index.{add_at}
use efnet_services.Table.Remove.{put_at}
use efnet_services.AdminDb.Store.{AdminDb, Account, Platform, table_of, check}
use efnet_services.AdminDb.Account.{fill_account, account_find}
use efnet_services.AdminDb.Account.Index.{Index, fill_account-Index}
use efnet_services.AdminDb.Account.Find.{IsHashed, Finds, account_find-Finds}
use efnet_services.ChanfixDb.Hash.{hash_compute_client}
use efnet_services.AdminDb.UserHost.{fill_userhost, create_userhost_at, account_remove}
use efnet_services.AdminDb.UserHost.Remove.{Masks, account_remove-Index}
use efnet_services.AdminDb.UserHost.Create.{
  Creates, fill_userhost-Masks, fill_userhost-table, create_userhost_at-Creates,
}
use efnet_services.Tests.Space.{no_links, full_region, disk, same_bytes}

abbrev platform : Platform
platform = record {
  to_lower = λ c. c;
  same_name = same_bytes;
  matches = same_bytes;
  disk = disk;
  account_bytes = 120;
  userhost_bytes = 40;
}

abbrev no_account : Account
no_account = record {
  size = 0;
  hashv = 0;
  last_login = 0;
  login_fail_time = 0;
  login_fail_num = 0;
  passwd_fail_time = 0;
  passwd_fail_num = 0;
  expires = 0;
  flags = 0;
  passwd = [];
  userhosts = npos;
  userhosts_num = 0;
  name = [];
}

abbrev empty_db : AdminDb
empty_db = record {
  info = record { hashtable_size = 2; num_accounts = 0; accounts = npos };
  region = full_region;
  buckets = λ _. npos;
  account = λ _. no_account;
  account_h = no_links;
  account_a = no_links;
  userhost = λ _. record { size = 0; account_offset = npos; userhost = []; server = [] };
  userhost_a = no_links;
}

empty_db-Index : Index empty_db [] (λ _. [])
empty_db-Index = record {
  all = record { starts = refl; linked = tt; distinct = tt };
  bucket = λ hv. record { starts = refl; linked = tt; distinct = tt };
  at_home = λ hv. tt;
  cover = tt;
  counted = refl;
}

-- The name is "ab".
abbrev name_ab : Text
name_ab = 97 ∷ 98 ∷ []

abbrev one_account : AdminDb
one_account = fill_account name_ab 16 64 31832 empty_db

abbrev one_chain : ℕ → List ℕ
one_chain = add_at (λ _. []) 0 16

one_account-Index : Index one_account (16 ∷ []) one_chain
one_account-Index =
    fill_account-Index empty_db [] (λ _. []) empty_db-Index name_ab 16 64 31832 (omega arith) tt
      (λ hv. tt) (omega arith) (omega arith)

one_account-IsHashed : All (λ c. IsHashed platform (one_account.account c)) (16 ∷ [])
unfolding fill_account hash_compute_client
one_account-IsHashed = (refl, tt)

account_find-Finds_example :
    ((account_find platform name_ab one_account).1 ≡ one_account)
    × Finds platform one_account
        (16 ∷ [])
        one_chain
        one_account-Index
        name_ab
        (account_find platform name_ab one_account).0
unfolding fill_account check Region.check
account_find-Finds_example =
    account_find-Finds platform one_account (16 ∷ []) one_chain one_account-Index name_ab
      (omega arith) refl one_account-IsHashed

one_account-Masks : Masks one_account 16 []
unfolding fill_account
one_account-Masks = record {
  listed = record { starts = refl; linked = tt; distinct = tt };
  owned = tt;
  counted = refl;
  bounded = omega arith;
}

-- The mask is "*" on the server "s".
abbrev one_mask : AdminDb
one_mask = fill_userhost 16 (42 ∷ []) (115 ∷ []) 100 48 one_account

one_mask-Masks : Masks one_mask 16 (100 ∷ [])
unfolding fill_account
one_mask-Masks =
    fill_userhost-Masks one_account 16 100 [] one_account-Masks tt (42 ∷ []) (115 ∷ []) 48
      (omega arith) (omega arith)

create_userhost_at-Creates_example :
    Creates platform one_mask 16 160 48
      (100 ∷ [])
      (42 ∷ [])
      (116 ∷ [])
      (create_userhost_at platform 16 (42 ∷ []) (116 ∷ []) (160, 48) one_mask)
unfolding fill_account fill_userhost
create_userhost_at-Creates_example =
    create_userhost_at-Creates platform one_mask 16 160 48 (100 ∷ []) (42 ∷ []) (116 ∷ [])
      one_mask-Masks (omega arith, tt) (omega arith) (omega arith)

one_mask-Index : Index one_mask (16 ∷ []) one_chain
one_mask-Index =
    subst (λ t. Shared.Index npos t (16 ∷ []) one_chain)
      (sym (fill_userhost-table 16 (42 ∷ []) (115 ∷ []) 100 48 one_account)) one_account-Index

account_remove-Index_example :
    ((account_remove platform 16 one_mask).0 ≡ done tt)
    × Index
        (account_remove platform 16 one_mask).1
        []
        (put_at one_chain (home (table_of one_mask) 16) [])
unfolding fill_account fill_userhost
account_remove-Index_example =
    account_remove-Index platform one_mask 16 [] [] [] [] one_chain one_mask-Index refl (100 ∷ [])
      refl one_mask-Masks (omega arith) (omega arith)
