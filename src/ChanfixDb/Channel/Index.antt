-- ===== src/ChanfixDb/Channel/Index.antt =====
-- The index of the channels: the list of all of them, and a chain for each bucket of the hash table.
use efnet_services.Common.{
  ℕ, ◌≡◌, refl, sym, ap, subst, ◌≢◌, ◌≤◌, ◌<◌, ◌%◌, List, ◌∷◌, ◌++◌, Avoids, map-update,
}
use efnet_services.Run.{npos, Text}
use efnet_services.Table.{Table, add_record, remove_record}
use efnet_services.Table.Index as Shared
use efnet_services.Table.Index.{add_at, add_record-Index}
use efnet_services.Table.Remove.{put_at, remove_record-Index}
use efnet_services.ChanfixDb.Store.{ChanfixDb}
use efnet_services.ChanfixDb.Space.{del_space}
use efnet_services.ChanfixDb.Channel.{new_chan, fill_chan, unlink_chan}

abbrev pub table_of : ChanfixDb → Table
table_of db = record {
  slots = db.info.hashtable_size;
  num = db.info.num_channels;
  first = db.info.channels;
  hashv = λ c. (db.chan c).hashv;
  buckets = db.buckets;
  hash_links = db.chan_h;
  all_links = db.chan_a;
}

abbrev pub home : ChanfixDb → ℕ → ℕ
home db c = (db.chan c).hashv % db.info.hashtable_size

-- `cs` are the channels of the database and `chain hv` those of bucket `hv`.
abbrev pub Index : ChanfixDb → List ℕ → (ℕ → List ℕ) → Type 0
Index db = Shared.Index npos (table_of db)

table_of-fill_chan :
    (name : Text) (pos size hashv : ℕ) (db : ChanfixDb)
    → add_record npos pos hashv (table_of db) ≡ table_of (fill_chan name pos size hashv db)
unfolding fill_chan add_record
table_of-fill_chan name pos size hashv db =
    ap (λ k. record (table_of (fill_chan name pos size hashv db)) { hashv = k })
      (sym (map-update (λ c. c.hashv) db.chan pos (new_chan name size hashv)))

table_of-unlink_chan :
    (pos : ℕ) (db : ChanfixDb)
    → remove_record npos pos (table_of db) ≡ table_of (unlink_chan pos db)
unfolding unlink_chan del_space remove_record
table_of-unlink_chan pos db = refl

-- When the index is well-formed, the hash table is not empty and the number of channels is below
-- the largest u_int, a channel at a new position becomes the first of the list of all and of its
-- bucket, the other buckets stay as they are, and the index is well-formed again.
pub fill_chan-Index :
    (db : ChanfixDb) (cs : List ℕ) (chain : ℕ → List ℕ)
    → Index db cs chain
    → (name : Text) (pos size hashv : ℕ) → pos ≢ npos
    → Avoids pos cs
    → ((hv : ℕ) → Avoids pos (chain hv))
    → 0 < db.info.hashtable_size
    → db.info.num_channels < npos
    → Index
        (fill_chan name pos size hashv db)
        (pos ∷ cs)
        (add_at chain (hashv % db.info.hashtable_size) pos)
fill_chan-Index db cs chain index name pos size hashv proper new new_chain positive room =
    subst (λ t. Shared.Index npos t (pos ∷ cs) (add_at chain (hashv % db.info.hashtable_size) pos))
      (table_of-fill_chan name pos size hashv db)
      (add_record-Index npos (table_of db) cs chain index pos hashv proper new new_chain positive
        room)

-- When the index is well-formed, the hash table is not empty and the number of channels is a u_int,
-- an unlinked channel is gone from the list of all and from its bucket, the other buckets stay as
-- they are, and the index is well-formed again.
pub unlink_chan-Index :
    (db : ChanfixDb) (pos : ℕ) (xs ys us vs : List ℕ) (chain : ℕ → List ℕ)
    → Index db (xs ++ pos ∷ ys) chain
    → chain (home db pos) ≡ us ++ pos ∷ vs
    → 0 < db.info.hashtable_size
    → db.info.num_channels ≤ npos
    → Index (unlink_chan pos db) (xs ++ ys) (put_at chain (home db pos) (us ++ vs))
unlink_chan-Index db pos xs ys us vs chain index here positive small =
    subst (λ t. Shared.Index npos t (xs ++ ys) (put_at chain (home db pos) (us ++ vs)))
      (table_of-unlink_chan pos db)
      (remove_record-Index npos (table_of db) pos xs ys us vs chain index here positive small)
