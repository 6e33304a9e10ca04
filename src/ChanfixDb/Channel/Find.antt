-- ===== src/ChanfixDb/Channel/Find.antt =====
-- chanfixdb_channel_find against the list of all channels.
use efnet_services.Common.{
  ℕ, ◌≡◌, refl, ap, ◌⊎◌, inl, inr, ◌<◌, ◌%◌, List, true, false, All, In, eq→==, ne→==, arith,
}
use efnet_services.Table.Find.{scan-Searched}
use efnet_services.Run.{Result, done, fail, enoent, npos, Text}
use efnet_services.ChanfixDb.Store.{ChanfixDb, Platform, check}
use efnet_services.ChanfixDb.Hash.{hash_compute_channel}
use efnet_services.ChanfixDb.Channel.{is_chan, chan_loop, find_in_bucket, channel_find}
use efnet_services.ChanfixDb.Channel.Named.{
  IsHashed, HasName, LacksName, is_chan-HasName, is_chan-LacksName,
}
use efnet_services.ChanfixDb.Channel.Index.{Index, table_of}

module _ (calls : Platform) (db : ChanfixDb) (cs : List ℕ) (chain : ℕ → List ℕ)
    (index : Index db cs chain) (name : Text) where
  abbrev hash : ℕ
  hash = hash_compute_channel calls.to_lower name

  abbrev bucket_of : ℕ
  bucket_of = hash % db.info.hashtable_size

  -- What the name is compared with: a channel of the hash whose name is the same.
  abbrev pub Named : ℕ → Type 0
  Named pos = is_chan calls db name hash pos ≡ true

  is_chan-hash : (pos : ℕ) → Named pos → (db.chan pos).hashv ≡ hash
  is_chan-hash pos h = ground arith

  -- What a search of one bucket returns.
  abbrev pub Searched : Result ℕ → Type 0
  Searched a =
      ((pos : ℕ) × (a ≡ done pos) × Named pos × In pos (chain bucket_of))
      ⊎ ((a ≡ fail enoent) × All (λ c. is_chan calls db name hash c ≡ false) cs)

  pub find_in_bucket-Searched :
      0 < db.info.hashtable_size
      → Searched (find_in_bucket calls db (db.buckets bucket_of) name hash)
  unfolding find_in_bucket chan_loop
  find_in_bucket-Searched positive =
      let (r, e, found) =
        scan-Searched npos (table_of db) cs chain index (is_chan calls db name hash) hash
          is_chan-hash positive in
      rw (e, find_in_bucket)
        (elim found [
          | inl (n, good, here) ↦ rw (ne→== r npos n) (inl (r, refl, good, here))
          | inr (i, none_of) ↦ rw (eq→== r npos i) (inr (refl, none_of))
        ])

  -- On a well-formed index with a hash table that is not empty, with the mapping up to date, and when
  -- the hash of each channel is that of its name, the call changes nothing. It returns a channel of the
  -- bucket with the hash of the name whose own name is the same, or ENOENT when none of the channels of
  -- the database whose names have that hash has the same name; it never runs out of fuel.
  pub channel_find-Finds :
      0 < db.info.hashtable_size
      → check calls db ≡ (done tt, db)
      → All (λ c. IsHashed calls (db.chan c)) cs
      → ((pos : ℕ) × (channel_find calls name db ≡ (done pos, db))
          × HasName calls name (db.chan pos)
          × In pos (chain (hash_compute_channel calls.to_lower name % db.info.hashtable_size)))
        ⊎ ((channel_find calls name db ≡ (fail enoent, db))
            × All (λ c. LacksName calls name (db.chan c)) cs)
  unfolding channel_find
  channel_find-Finds positive ok hashed = rw ok (elim (find_in_bucket-Searched positive) [
    | inl (pos, e, named, i) ↦
        inl (pos, ap (λ a. (a, db)) e, is_chan-HasName calls name db pos named, i)
    | inr (e, f) ↦ inr (ap (λ a. (a, db)) e, is_chan-LacksName calls name db cs hashed f)
  ])
