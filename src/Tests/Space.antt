-- ===== src/Tests/Space.antt =====
-- A file of 200 bytes in use with no free block, and the same one after 64 bytes were given back.
use efnet_services.Common.{ℕ, ◌≡◌, refl, List, [], ◌∷◌, none, Bool, true, false, ◌&&◌, ◌==◌, arith}
use efnet_services.Links.{Links}
use efnet_services.Run.{npos}
use efnet_services.Region.{Region, Disk, del_space, get_space}
use efnet_services.Region.Blocks.{IsFree}
use efnet_services.Region.Safety.{del_space-IsFree}
use efnet_services.Region.Alloc.{Given, get_space-Given}
use efnet_services.ChanfixDb.Store.{ChanfixDb, Platform, Chan, ChanUser}

abbrev pub no_links : Links
no_links = record { prev = λ _. npos; next = λ _. npos }

abbrev pub no_chan : Chan
no_chan = record {
  size = 0;
  hashv = 0;
  last_seen = 0;
  checks = 0;
  modes = [];
  flags = 0;
  fixed_time = 0;
  fixed_passes = 0;
  users_sorted_first = npos;
  users_sorted_last = npos;
  users_offset = λ _. npos;
  users_num = 0;
  name = [];
}

abbrev pub no_user : ChanUser
no_user = record {
  size = 0;
  hashv = 0;
  last_seen = 0;
  chan_offset = npos;
  tot_score = 0;
  scores = [];
  userhost = [];
}

-- A file of 200 bytes without free blocks.
abbrev pub full_region : Region
full_region = record {
  size = 200;
  next_addpos = 200;
  freelist = npos;
  freelist_size = 0;
  free_size = λ _. 0;
  free = no_links;
  data_size = 200;
  mapped = true;
}

-- A file with a hash table of two buckets.
abbrev pub empty_db : ChanfixDb
empty_db = record {
  info = record {
    checks = 0;
    hashtable_size = 2;
    num_channels = 0;
    channels = npos;
    num_chanusers = 0;
    chanusers = npos;
  };
  region = full_region;
  buckets = λ _. npos;
  chan = λ _. no_chan;
  chan_h = no_links;
  chan_a = no_links;
  user = λ _. no_user;
  user_s = no_links;
  user_h = no_links;
  user_a = no_links;
}

abbrev pub same_bytes : List ℕ → List ℕ → Bool
same_bytes [] [] = true
same_bytes [] (b ∷ bs) = false
same_bytes (a ∷ rest) [] = false
same_bytes (a ∷ rest) (b ∷ bs) = a == b && same_bytes rest bs

abbrev pub disk : Disk
disk = record { ftruncate = λ n. none; mmap = λ n. none }

-- A platform whose system calls succeed, where names are the same when their bytes are.
abbrev pub platform : Platform
platform = record {
  to_lower = λ c. c;
  same_text = same_bytes;
  disk = disk;
  chan_bytes = 800;
  chanuser_bytes = 100;
}

pub full_region-IsFree : IsFree full_region []
full_region-IsFree = record {
  listed = record { starts = refl; linked = tt; distinct = tt };
  filled = tt;
  below = tt;
  apart = tt;
  total = refl;
  bounded = omega arith;
  high = omega arith;
}

del_space-IsFree_example : IsFree (del_space 100 64 full_region) (100 ∷ [])
del_space-IsFree_example =
    del_space-IsFree full_region [] full_region-IsFree 100 64 (omega arith, tt) (omega arith)
      (omega arith)

abbrev one_block : Region
one_block = del_space 100 64 full_region

one_block-IsFree : IsFree one_block (100 ∷ [])
one_block-IsFree =
    del_space-IsFree full_region [] full_region-IsFree 100 64 (omega arith, tt) (omega arith)
      (omega arith)

get_space-Given_example :
    Given disk 0x10_0000 one_block (100 ∷ []) 20 0 100 (get_space disk 0x10_0000 20 one_block)
unfolding del_space
get_space-Given_example =
    get_space-Given disk 0x10_0000 one_block (100 ∷ []) 20 0 100 one_block-IsFree (omega arith)
      (omega arith, (omega arith, tt))

block_is_split : (get_space disk 0x10_0000 20 one_block).1.freelist ≡ 124
unfolding del_space get_space
block_is_split = refl
