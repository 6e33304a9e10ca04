-- ===== src/Region.antt =====
-- The space of a database file, which modules/chanfixdb/chanfixdb.c and modules/admindb/admindb.c
-- manage in the same way: _check, _del_space and _get_space of each. A position is an offset into the
-- mapped file. The search of the free list takes fuel, one more than the bytes on the list, of which
-- each block has at least one.
pub mod Blocks
pub mod Safety
pub mod Use
pub mod Alloc
use efnet_services.Common.{
  ℕ, zero, suc, ◌+◌, ◌-◌, ◌*◌, ◌/◌, Bool, true, false, Option, none, some, ◌&&◌, ◌||◌, ◌==◌, leb,
  ltb, if◌then◌else◌, update,
}
use efnet_services.Links.{Links, Chain, add_to_list, del_from_list, scan}
use efnet_services.Run.{Result, done, fail, stuck, os, npos, add32, sub32, Call, continue}

-- The part of the header that is about space, the free blocks, and the mapping of the file; `mapped`
-- is false when the data pointer is (char *)-1.
pub record Region : Type 0 where
  pub size : ℕ
  pub next_addpos : ℕ
  pub freelist : ℕ
  pub freelist_size : ℕ
  pub free_size : ℕ → ℕ
  pub free : Links
  pub data_size : ℕ
  pub mapped : Bool

-- The errno of a failing ftruncate or mmap at a size.
pub record Disk : Type 0 where
  pub ftruncate : ℕ → Option ℕ
  pub mmap : ℕ → Option ℕ

abbrev pub free_list : Region → Chain
free_list db = record { first = db.freelist; links = db.free }

-- _chanfixdb_check
unfoldable pub check : Disk → Call Region (Unit {0})
check disk db = if db.size == db.data_size then (done tt, db) else elim (disk.mmap db.size) [
  | some e ↦ (fail (os e), record db { mapped = false })
  | none ↦ (done tt, record db { mapped = true; data_size = db.size })
]

-- _chanfixdb_del_space
unfoldable pub del_space : ℕ → ℕ → Region → Region
unfolding add_to_list
del_space pos size db =
    let c = add_to_list npos pos (free_list db) in
    record db {
      free_size = update db.free_size pos size;
      free = c.links;
      freelist = c.first;
      freelist_size = add32 db.freelist_size size;
    }

-- `(size + 7) & ~7`
abbrev pub round_up : ℕ → ℕ
round_up size = add32 size 7 / 8 * 8

-- sizeof(SI_CHANFIX_FREELIST) is 12.
abbrev pub fits : ℕ → ℕ → Bool
fits have size = have == size || (ltb size have && leb 12 (have - size))

-- The loop over the free list: the first block that fits, or `npos`.
unfoldable pub find_block : ℕ → Region → ℕ → ℕ → Option ℕ
unfolding scan
find_block fuel db size pos = scan npos fuel (λ p. fits (db.free_size p) size) db.free pos

-- The body of its `if`, up to the subtraction: the block leaves the list.
unfoldable pub take_block : ℕ → Region → Region
unfolding del_from_list
take_block pos db =
    let c = del_from_list npos pos (free_list db) in
    record db {
      free = c.links;
      freelist = c.first;
      freelist_size = sub32 db.freelist_size (db.free_size pos);
    }

-- The whole body: what is too much of the block goes back.
unfoldable pub use_block : ℕ → ℕ → Region → Region
unfolding del_space take_block
use_block size pos db =
    let diff = db.free_size pos - size in
    if diff == 0 then take_block pos db else del_space (add32 pos size) diff (take_block pos db)

-- `cfi_next_addpos += size`
unfoldable pub advance : ℕ → ℕ → Call Region (ℕ × ℕ)
advance pos size db = (done (pos, size), record db { next_addpos = add32 db.next_addpos size })

-- `spare` is what the file is made longer by than is needed, if the disk has it.
module _ (disk : Disk) (spare : ℕ) where
  unfoldable pub grow : ℕ → Call Region (Unit {0})
  unfolding check
  grow end db = elim (disk.ftruncate (add32 end spare)) [
    | none ↦ check disk (record db { size = add32 end spare })
    | some e ↦ elim (disk.ftruncate end) [
      | none ↦ check disk (record db { size = end })
      | some f ↦ (fail (os f), db)
    ]
  ]

  -- No block fits: the space at the end of the file.
  unfoldable pub extend : ℕ → Call Region (ℕ × ℕ)
  unfolding grow advance
  extend size db =
      let pos = db.next_addpos in
      if ltb db.size (add32 pos size)
      then continue (grow (add32 pos size) db) (λ _. advance pos size)
      else advance pos size db

  -- _chanfixdb_get_space, with the position and the size that it stores
  unfoldable pub get_space : ℕ → Call Region (ℕ × ℕ)
  unfolding find_block use_block extend
  get_space wanted db =
      let size = round_up wanted in
      elim (find_block (suc db.freelist_size) db size db.freelist) [
        | none ↦ (fail stuck, db)
        | some pos ↦
            if pos == npos then extend size db else (done (pos, size), use_block size pos db)
      ]
