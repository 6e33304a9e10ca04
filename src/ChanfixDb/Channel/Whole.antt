-- ===== src/ChanfixDb/Channel/Whole.antt =====
-- The whole of chanfixdb_channel_create: the space for the record, and the index.
use efnet_services.Common.{
  ℕ, ◌∷◌, ◌≡◌, refl, sym, ◌≢◌, ◌⊎◌, inl, inr, ◌≤◌, ◌<◌, ◌+◌, ◌%◌, List, length, All, All-map, In,
  eq→==, arith,
}
use efnet_services.Run.{Result, done, fail, eexist, os, npos, add32, Text, continue}
use efnet_services.Region
use efnet_services.Region.{round_up}
use efnet_services.Region.Blocks.{IsFree, InUse}
use efnet_services.Region.Alloc.{Outcome, get_space-Outcome}
use efnet_services.ChanfixDb.Store.{ChanfixDb, Chan, Platform, check}
use efnet_services.ChanfixDb.Hash.{hash_compute_channel}
use efnet_services.ChanfixDb.Space.{get_space}
use efnet_services.ChanfixDb.Channel.{create_at, channel_create}
use efnet_services.Table.Index.{add_at}
use efnet_services.ChanfixDb.Channel.Named.{IsHashed, HasName, LacksName, IsNew}
use efnet_services.ChanfixDb.Channel.Index.{Index}
use efnet_services.ChanfixDb.Channel.Create.{create_at-Creates}

region-Index :
    (db : ChanfixDb) (cs : List ℕ) (chain : ℕ → List ℕ) (region : Region.Region)
    → Index db cs chain
    → Index (record db { region = region }) cs chain
region-Index db cs chain region index = record {
  all = index.all;
  bucket = index.bucket;
  at_home = index.at_home;
  cover = index.cover;
  counted = index.counted;
}

-- Each of the records has a byte that is in use.
abbrev pub AllUsed : ChanfixDb → List ℕ → List ℕ → Type 0
AllUsed db bs = All (λ c. InUse db.region bs c 1)

-- The three outcomes: an error of the system and the same channels; EEXIST, a channel with the name
-- and the same channels; or a new channel of the name, and none of the others whose names have its hash
-- has it. No record of another channel changes.
abbrev pub Created :
    Platform → ChanfixDb → List ℕ → (ℕ → List ℕ) → Text → Result ℕ × ChanfixDb → Type 0
Created calls db cs chain name r =
    ((e : ℕ) × (r.0 ≡ fail (os e)) × Index r.1 cs chain × All (λ c. r.1.chan c ≡ db.chan c) cs)
    ⊎ ((c : ℕ) × (r.0 ≡ fail eexist)
        × HasName calls name (db.chan c)
        × In c (chain (hash_compute_channel calls.to_lower name % db.info.hashtable_size))
        × Index r.1 cs chain
        × All (λ c. r.1.chan c ≡ db.chan c) cs)
    ⊎ ((pos : ℕ) × (r.0 ≡ done pos)
        × All (λ c. LacksName calls name (db.chan c)) cs
        × Index r.1 (pos ∷ cs)
            (add_at chain (hash_compute_channel calls.to_lower name % db.info.hashtable_size) pos)
        × IsNew calls name (round_up (add32 calls.chan_bytes (length name))) (r.1.chan pos)
        × All (λ c. r.1.chan c ≡ db.chan c) cs)

module _ (calls : Platform) (db : ChanfixDb) (cs : List ℕ) (chain : ℕ → List ℕ)
    (index : Index db cs chain) (name : Text) (bs : List ℕ) (free : IsFree db.region bs)
    (used : AllUsed db bs cs) (used_chain : (hv : ℕ) → AllUsed db bs (chain hv)) where
  abbrev size : ℕ
  size = round_up (add32 calls.chan_bytes (length name))

  module _ (fresh : db.region.size ≡ db.region.data_size) (some_bytes : 0 < size)
      (fits : db.region.next_addpos + size ≤ npos) (positive : 0 < db.info.hashtable_size)
      (room : db.info.num_channels < npos) (hashed : All (λ c. IsHashed calls (db.chan c)) cs) where
    check_fresh : check calls db ≡ (done tt, db)
    unfolding check Region.check
    check_fresh = rw (eq→== db.region.size db.region.data_size fresh) refl

    kept :
        (pos : ℕ) (chan : ℕ → Chan)
        → ((c : ℕ) → c ≢ pos → chan c ≡ db.chan c)
        → All (λ c. pos ≢ c) cs
        → All (λ c. chan c ≡ db.chan c) cs
    kept pos chan same =
        All-map (λ c. pos ≢ c) (λ c. chan c ≡ db.chan c) cs (λ c n. same c (λ e. n (sym e)))

    untouched : All (λ c. db.chan c ≡ db.chan c) cs
    untouched =
        All-map (λ c. InUse db.region bs c 1) (λ c. db.chan c ≡ db.chan c) cs (λ c u. refl) used

    with_space :
        (a : Result (ℕ × ℕ)) (region : Region.Region)
        → Outcome calls.disk 0x10_0000 db.region bs size free fits (a, region)
        → Created calls db cs chain name
            (continue (a, record db { region = region }) (create_at calls name))
    with_space a region (inl (pos, e, (bs', good, own, others))) =
        let others_new = λ (ks : List ℕ).
          All-map (λ c. InUse db.region bs c 1) (λ c. pos ≢ c) ks
            (λ c u k. omega (arith, (others c 1 u).1, some_bytes)) in
        rw e
          (elim (create_at-Creates calls (record db { region = region }) cs chain
            (region-Index db cs chain region index) name pos size
            (λ k. omega (arith, own.0, good.high, some_bytes)) (others_new cs used)
            (λ hv. others_new (chain hv) (used_chain hv)) positive room hashed) [
              | inl (c, i, named, here, ix, same) ↦
                  inr (inl (c, i, named, here, ix, kept pos _ same (others_new cs used)))
              | inr (i, f, ix, own, same) ↦
                  inr (inr (pos, i, f, ix, own, kept pos _ same (others_new cs used)))
            ])
    with_space a region (inr (e, i, same, none_fits, short)) =
        rw i (inl (e, refl, region-Index db cs chain region index, untouched))

    -- On a well-formed file whose mapping is up to date, whose channels are in use and have the hashes
    -- of their names, and in which the record fits below the largest position, chanfixdb_channel_create
    -- has three outcomes. It fails with an error of the system and leaves the channels as they were; it
    -- fails with EEXIST, some channel of the bucket has the hash and the name, and it leaves them as
    -- they were; or it returns a position that becomes one more channel, of that name and without
    -- users, and none of the other channels whose names have its hash has the name. It never changes
    -- the record of another channel, and never runs out of fuel.
    pub channel_create-Created : Created calls db cs chain name (channel_create calls name db)
    unfolding channel_create get_space
    channel_create-Created =
        let r =
          Region.get_space calls.disk 0x10_0000 (add32 calls.chan_bytes (length name)) db.region in
        rw check_fresh (
          with_space r.0 r.1 (
            get_space-Outcome calls.disk 0x10_0000 db.region bs
              (add32 calls.chan_bytes (length name)) free fits))
