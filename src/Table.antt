-- ===== src/Table.antt =====
-- A hash table of records that are also on a list of all: the channels of
-- modules/chanfixdb/chanfixdb.c, the accounts of modules/admindb/admindb.c, and the channels of
-- daemon/hash.c have their links like this. `nil` ends a list. A record is in the bucket of its hash.
pub mod Index
pub mod Remove
pub mod Find
use efnet_services.Common.{ℕ, ◌%◌, update}
use efnet_services.Links.{Links, Chain, add_to_list, del_from_list}
use efnet_services.Run.{add32, sub32}

pub record Table : Type 0 where
  pub slots : ℕ
  pub num : ℕ
  pub first : ℕ
  pub hashv : ℕ → ℕ
  pub buckets : ℕ → ℕ
  pub hash_links : Links
  pub all_links : Links

abbrev pub all_of : Table → Chain
all_of t = record { first = t.first; links = t.all_links }

abbrev pub bucket_of : ℕ → Table → Chain
bucket_of hv t = record { first = t.buckets hv; links = t.hash_links }

abbrev pub home : Table → ℕ → ℕ
home t c = t.hashv c % t.slots

module _ (nil : ℕ) where
  -- A record with its hash becomes the first of its bucket and of the list of all.
  unfoldable pub add_record : ℕ → ℕ → Table → Table
  add_record pos hashv t =
      let hv = hashv % t.slots in
      let h = add_to_list nil pos (bucket_of hv t) in
      let a = add_to_list nil pos (all_of t) in
      record t {
        num = add32 t.num 1;
        first = a.first;
        hashv = update t.hashv pos hashv;
        buckets = update t.buckets hv h.first;
        hash_links = h.links;
        all_links = a.links;
      }

  -- A record leaves both lists.
  unfoldable pub remove_record : ℕ → Table → Table
  remove_record pos t =
      let hv = home t pos in
      let h = del_from_list nil pos (bucket_of hv t) in
      let a = del_from_list nil pos (all_of t) in
      record t {
        num = sub32 t.num 1;
        first = a.first;
        buckets = update t.buckets hv h.first;
        hash_links = h.links;
        all_links = a.links;
      }
