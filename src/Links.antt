-- ===== src/Links.antt =====
-- Doubly linked lists whose records are named by positions: the macros si_ll_add_to_list and
-- si_ll_del_from_list of include/services.h, which modules/chanfixdb/chanfixdb.c writes out by hand
-- with (u_int)-1 in place of NULL, and the lists with a last record that chanfixdb keeps sorted.
-- `nil` is the position that ends a list. The `_prev` and `_next` fields of all the records are two
-- functions of the position, and a head or a bucket is a position that the caller keeps.
pub mod Segment
pub mod Insert
pub mod Scan
pub mod Family
pub mod Reaches
use efnet_services.Common.{ℕ, zero, suc, Bool, Option, none, some, ◌==◌, if◌then◌else◌, update}

pub record Links : Type 0 where
  pub prev : ℕ → ℕ
  pub next : ℕ → ℕ

-- A list head and the links of the records.
pub record Chain : Type 0 where
  pub first : ℕ
  pub links : Links

-- A list with a first and a last record.
pub record Ends : Type 0 where
  pub first : ℕ
  pub last : ℕ
  pub links : Links

abbrev pub set_prev : ℕ → ℕ → Links → Links
set_prev p v l = record l { prev = update l.prev p v }

abbrev pub set_next : ℕ → ℕ → Links → Links
set_next p v l = record l { next = update l.next p v }

module _ (nil : ℕ) where
  -- `if (p != nil) p->prev = v`
  unfoldable pub set_prev_if : ℕ → ℕ → Links → Links
  set_prev_if p v l = if p == nil then l else set_prev p v l

  -- `if (p != nil) p->next = v`
  unfoldable pub set_next_if : ℕ → ℕ → Links → Links
  set_next_if p v l = if p == nil then l else set_next p v l

  -- si_ll_add_to_list
  unfoldable pub add_to_list : ℕ → Chain → Chain
  unfolding set_prev_if
  add_to_list x c =
      let l = set_next x c.first (set_prev x nil c.links) in
      record { first = x; links = set_prev_if (l.next x) x l }

  -- si_ll_del_from_list
  unfoldable pub del_from_list : ℕ → Chain → Chain
  unfolding set_prev_if set_next_if
  del_from_list x c =
      let p = c.links.prev x in
      let q = c.links.next x in
      record {
        first = if p == nil then q else c.first;
        links = set_prev_if q p (set_next_if p q c.links);
      }

  -- `for (pos = first; pos != nil; pos = pos->next) if (test) return pos;` with fuel: the record at
  -- which the loop stops, `nil` when it reaches the end, and `none` when the fuel runs out.
  unfoldable pub scan : ℕ → (ℕ → Bool) → Links → ℕ → Option ℕ
  scan zero test l pos = none
  scan (suc fuel) test l pos =
      let rest = scan fuel test l (l.next pos) in
      if pos == nil then some nil else if test pos then some pos else rest
