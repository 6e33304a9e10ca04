-- ===== src/Tests/Channel.antt =====
-- A database with two channels in the two buckets of its hash table.
use efnet_services.Common.{
  ℕ, ◌≡◌, refl, ◌⊎◌, inl, inr, ◌%◌, List, [], ◌∷◌, All, In, Avoids, Bool-cases, ◌==◌, arith,
}
use efnet_services.Run.{done, fail, enoent, eexist}
use efnet_services.Region
use efnet_services.ChanfixDb.Store.{ChanfixDb, check}
use efnet_services.ChanfixDb.Hash.{hash_compute_channel}
use efnet_services.ChanfixDb.Channel.{
  channel_create, fill_chan, create_at, find_in_bucket, channel_find,
}
use efnet_services.ChanfixDb.Channel.Index.{Index, fill_chan-Index}
use efnet_services.Table.Index.{add_at}
use efnet_services.ChanfixDb.Channel.Whole.{Created, AllUsed, channel_create-Created}
use efnet_services.Region.Blocks.{InUse}
use efnet_services.ChanfixDb.Channel.Create.{Creates, create_at-Creates}
use efnet_services.ChanfixDb.Channel.Find.{channel_find-Finds}
use efnet_services.ChanfixDb.Channel.Named.{IsHashed, HasName, LacksName}
use efnet_services.Links.{add_to_list}
use efnet_services.Tests.Space.{empty_db, platform, full_region, full_region-IsFree}

empty_db-Index : Index empty_db [] (λ _. [])
empty_db-Index = record {
  all = record { starts = refl; linked = tt; distinct = tt };
  bucket = λ hv. record { starts = refl; linked = tt; distinct = tt };
  at_home = λ hv. tt;
  cover = tt;
  counted = refl;
}

-- The names are "#a" and "#b".
abbrev name_a : List ℕ
name_a = 35 ∷ 97 ∷ []

abbrev name_b : List ℕ
name_b = 35 ∷ 98 ∷ []

hash_a : hash_compute_channel platform.to_lower name_a ≡ 18319
unfolding hash_compute_channel
hash_a = refl

abbrev one_chan : ChanfixDb
one_chan = fill_chan name_a 16 64 18319 empty_db

-- Bucket 1 holds the channel at 16.
abbrev one_chain : ℕ → List ℕ
one_chain = add_at (λ _. []) 1 16

one_chan-Index : Index one_chan (16 ∷ []) one_chain
one_chan-Index =
    fill_chan-Index empty_db [] (λ _. []) empty_db-Index name_a 16 64 18319 (omega arith) tt
      (λ hv. tt) (omega arith) (omega arith)

one_chain-Avoids : (hv : ℕ) → Avoids 80 (one_chain hv)
one_chain-Avoids hv = elim (Bool-cases (hv == 1)) [
  | inl y ↦ rw y (omega arith, tt)
  | inr n ↦ rw n tt
]

abbrev two_chans : ChanfixDb
two_chans = fill_chan name_b 80 64 18428 one_chan

abbrev two_chains : ℕ → List ℕ
two_chains = add_at one_chain 0 80

two_chans-Index : Index two_chans (80 ∷ 16 ∷ []) two_chains
unfolding fill_chan
two_chans-Index =
    fill_chan-Index one_chan (16 ∷ []) one_chain one_chan-Index name_b 80 64 18428 (omega arith)
      (omega arith, tt) one_chain-Avoids (omega arith) (omega arith)

one_chan-IsHashed : All (λ c. IsHashed platform (one_chan.chan c)) (16 ∷ [])
unfolding fill_chan hash_compute_channel
one_chan-IsHashed = (refl, tt)

two_chans-IsHashed : All (λ c. IsHashed platform (two_chans.chan c)) (80 ∷ 16 ∷ [])
unfolding fill_chan hash_compute_channel
two_chans-IsHashed = (refl, (refl, tt))

channel_find-Finds_example :
    ((pos : ℕ) × (channel_find platform name_a two_chans ≡ (done pos, two_chans))
      × HasName platform name_a (two_chans.chan pos)
      × In pos (
          two_chains
            (hash_compute_channel platform.to_lower name_a % two_chans.info.hashtable_size)))
    ⊎ ((channel_find platform name_a two_chans ≡ (fail enoent, two_chans))
        × All (λ c. LacksName platform name_a (two_chans.chan c)) (80 ∷ 16 ∷ []))
unfolding fill_chan check Region.check
channel_find-Finds_example =
    channel_find-Finds platform two_chans (80 ∷ 16 ∷ []) two_chains two_chans-Index name_a
      (omega arith) refl two_chans-IsHashed

finds_a : channel_find platform name_a two_chans ≡ (done 16, two_chans)
unfolding fill_chan check Region.check channel_find hash_compute_channel find_in_bucket add_to_list
finds_a = refl

create_at-Creates_example :
    Creates platform one_chan
      (16 ∷ [])
      one_chain
      one_chan-Index
      name_b
      80
      64
      (create_at platform name_b (80, 64) one_chan)
unfolding fill_chan
create_at-Creates_example =
    create_at-Creates platform one_chan (16 ∷ []) one_chain one_chan-Index name_b 80 64
      (omega arith) (omega arith, tt) one_chain-Avoids (omega arith) (omega arith) one_chan-IsHashed

-- "#a" is there already, and the space goes back.
refuses_a : (create_at platform name_a (80, 64) one_chan).0 ≡ fail eexist
unfolding fill_chan create_at hash_compute_channel find_in_bucket add_to_list
refuses_a = refl

used : InUse full_region [] 16 1
used = (omega arith, tt)

one_chain-used : (hv : ℕ) → AllUsed one_chan [] (one_chain hv)
unfolding fill_chan
one_chain-used hv = elim (Bool-cases (hv == 1)) [ inl y ↦ rw y (used, tt) | inr n ↦ rw n tt ]

channel_create-Created_example :
    Created platform one_chan (16 ∷ []) one_chain name_b (channel_create platform name_b one_chan)
unfolding fill_chan
channel_create-Created_example =
    channel_create-Created platform one_chan (16 ∷ []) one_chain one_chan-Index name_b []
      full_region-IsFree (used, tt) one_chain-used refl (omega arith) (omega arith) (omega arith)
      (omega arith) one_chan-IsHashed
