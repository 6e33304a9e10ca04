-- ===== src/ChanfixDb/Sorted.antt =====
-- The list of a channel's users by score, lowest first: chanfixdb_chanuser_sort of
-- modules/chanfixdb/chanfixdb.c, and the code of chanfixdb_chanuser_create and
-- chanfixdb_chanuser_remove that puts a user into the list or takes it out. `nil` is (u_int)-1. The
-- search loops take fuel; `none` means that it ran out.
pub mod Place
pub mod Order
pub mod Sort
use efnet_services.Common.{
  ℕ, zero, suc, Bool, Option, none, some, not, ◌&&◌, ◌||◌, ◌==◌, leb, ltb, if◌then◌else◌,
}
use efnet_services.Links.{Links, Ends, set_prev, set_next, set_prev_if, set_next_if}
use mathlib.Core.Option

module _ (nil : ℕ) where
  -- "remove from old spot first"
  unfoldable pub take_out : ℕ → Ends → Ends
  unfolding set_prev_if set_next_if
  take_out x e =
      let p = e.links.prev x in
      let q = e.links.next x in
      record {
        first = if p == nil then q else e.first;
        last = if q == nil then p else e.last;
        links = set_prev_if nil q p (set_next_if nil p q e.links);
      }

  -- "put it at the end"
  unfoldable pub put_last : ℕ → Ends → Ends
  unfolding set_next_if
  put_last x e = record {
    first = if e.last == nil then x else e.first;
    last = x;
    links = set_next_if nil e.last x (set_prev x e.last (set_next x nil e.links));
  }

  -- "put it at beginning", and "add to cfc_users_sorted" of chanfixdb_chanuser_create
  unfoldable pub put_first : ℕ → Ends → Ends
  unfolding set_prev_if
  put_first x e = record {
    first = x;
    last = if e.first == nil then x else e.last;
    links = set_prev_if nil e.first x (set_next x e.first (set_prev x nil e.links));
  }

  -- "add before 'cu'"
  unfoldable pub put_before : ℕ → ℕ → Ends → Ends
  unfolding set_next_if
  put_before cu x e =
      let p = e.links.prev cu in
      record {
        first = if p == nil then x else e.first;
        last = e.last;
        links = set_prev cu x (set_next_if nil p x (set_prev x p (set_next x cu e.links)));
      }

  -- "put after 'cu'"
  unfoldable pub put_after : ℕ → ℕ → Ends → Ends
  unfolding set_prev_if
  put_after cu x e =
      let q = e.links.next cu in
      record {
        first = e.first;
        last = if q == nil then x else e.last;
        links = set_next cu x (set_prev_if nil q x (set_next x q (set_prev x cu e.links)));
      }

  module _ (score : ℕ → ℕ) (l : Links) where
    -- The first `do ... while`: from `cu` forwards to a record that is not below `s`, or `nil`.
    unfoldable pub search_forward : ℕ → ℕ → ℕ → Option ℕ
    search_forward zero s cu = none
    search_forward (suc fuel) s cu =
        let q = l.next cu in
        let rest = search_forward fuel s q in
        if q == nil then some nil else if ltb (score q) s then rest else some q

    -- The second one: from `cu` backwards to a record that is not above `s`, or `nil`.
    unfoldable pub search_backward : ℕ → ℕ → ℕ → Option ℕ
    search_backward zero s cu = none
    search_backward (suc fuel) s cu =
        let p = l.prev cu in
        let rest = search_backward fuel s p in
        if p == nil then some nil else if ltb s (score p) then rest else some p

  pub move_forward : ℕ → Ends → ℕ → Ends
  move_forward x e cu = if cu == nil then put_last x e else put_before cu x e

  pub move_backward : ℕ → Ends → ℕ → Ends
  move_backward x e cu = if cu == nil then put_first x e else put_after cu x e

  -- chanfixdb_chanuser_sort, on the channel's list
  unfoldable pub sort_list : ℕ → (ℕ → ℕ) → ℕ → Ends → Option Ends
  unfolding move_forward move_backward
  sort_list fuel score x e =
      let p = e.links.prev x in
      let q = e.links.next x in
      if not (q == nil) && ltb (score q) (score x)
      then Option.map (move_forward x (take_out x e))
          (search_forward score e.links fuel (score x) q)
      else if (p == nil) || leb (score p) (score x)
      then some e
      else Option.map (move_backward x (take_out x e))
          (search_backward score e.links fuel (score x) p)
