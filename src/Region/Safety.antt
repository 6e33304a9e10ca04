-- ===== src/Region/Safety.antt =====
-- Space is never given out twice: what the operations on the free list do to the free blocks and to
-- the space in use.
use efnet_services.Common.{
  ℕ, ◌≡◌, sym, ◌≢◌, ◌≤◌, ◌<◌, ◌+◌, List, ◌∷◌, ◌++◌, All, All-map, All-zip, All-remove, All-middle,
  Avoids, arith, update, update_self, update_ne,
}
use efnet_services.Links.Insert.{add_to_list-Lists, del_from_list-Lists}
use efnet_services.Run.{npos}
use efnet_services.Region.{Region, free_list}
use efnet_services.Region.{del_space, take_block}
use efnet_services.Region.Blocks.{
  Apart, AllApart-remove, AllApart-middle, sum_of-remove, AllApart-frame, sum_of-frame, IsFree,
  InUse,
}

module _ (db : Region) (bs : List ℕ) (free : IsFree db bs) where
  module _ (pos size : ℕ) (used : InUse db bs pos size) (some_bytes : 0 < size) where
    not_a_block : Avoids pos bs
    not_a_block =
        All-zip (λ b. Apart pos size b (db.free_size b)) (λ b. 0 < db.free_size b) (λ b. pos ≢ b) bs
          (λ b a p e. omega arith) used.1 free.filled

    same_sizes : All (λ b. update db.free_size pos size b ≡ db.free_size b) bs
    same_sizes =
        All-map (λ b. pos ≢ b) (λ b. update db.free_size pos size b ≡ db.free_size b) bs
          (λ b n. update_ne db.free_size pos size b (λ e. n (sym e))) not_a_block

    -- When the free list is well-formed, giving back bytes in use, at least one and no more than
    -- `cfi_freelist_size` can count, leaves a well-formed free list with these bytes as its first
    -- block.
    pub del_space-IsFree :
        db.freelist_size + size ≤ npos → IsFree (del_space pos size db) (pos ∷ bs)
    unfolding del_space
    del_space-IsFree room =
        let g = update db.free_size pos size in
        let own : g pos ≡ size = update_self db.free_size pos size in
        record {
          listed =
              add_to_list-Lists npos pos bs (free_list db) (omega (arith, used.0, free.high))
                not_a_block free.listed;
          filled = (
            omega (arith, own),
            All-zip (λ b. g b ≡ db.free_size b) (λ b. 0 < db.free_size b) (λ b. 0 < g b) bs
                (λ b e p. omega arith) same_sizes free.filled,
          );
          below = (
            omega (arith, own, used.0),
            All-zip (λ b. g b ≡ db.free_size b) (λ b. b + db.free_size b ≤ db.next_addpos)
                (λ b. b + g b ≤ db.next_addpos) bs (λ b e p. omega arith) same_sizes free.below,
          );
          apart = (
            All-zip (λ b. g b ≡ db.free_size b) (λ b. Apart pos size b (db.free_size b))
                (λ b. Apart pos (g pos) b (g b)) bs (λ b e a. omega (arith, own)) same_sizes used.1,
            AllApart-frame db.free_size g bs same_sizes free.apart,
          );
          total = omega (arith, own, sum_of-frame db.free_size g bs same_sizes, free.total);
          bounded = omega arith;
          high = free.high;
        }

    -- Other space in use stays in use.
    pub del_space-InUse :
        (p n : ℕ)
        → InUse db bs p n
        → Apart p n pos size
        → InUse (del_space pos size db) (pos ∷ bs) p n
    unfolding del_space
    del_space-InUse p n u a =
        let g = update db.free_size pos size in
        let own : g pos ≡ size = update_self db.free_size pos size in
        (
          u.0,
          (
            omega (arith, own),
            All-zip (λ b. g b ≡ db.free_size b) (λ b. Apart p n b (db.free_size b))
                (λ b. Apart p n b (g b)) bs (λ b e k. omega arith) same_sizes u.1,
          ),
        )

module _ (db : Region) (us vs : List ℕ) (pos : ℕ) (free : IsFree db (us ++ pos ∷ vs)) where
  -- Taking a block off the list leaves the others as they are, and its space in use.
  pub take_block-IsFree : IsFree (take_block pos db) (us ++ vs)
  unfolding take_block
  take_block-IsFree =
      let gone = sum_of-remove db.free_size pos us vs in
      record {
        listed = del_from_list-Lists npos pos us vs (free_list db) free.listed;
        filled = All-remove (λ b. 0 < db.free_size b) pos us vs free.filled;
        below = All-remove (λ b. b + db.free_size b ≤ db.next_addpos) pos us vs free.below;
        apart = AllApart-remove db.free_size pos us vs free.apart;
        total = omega (arith, gone, free.total, free.bounded);
        bounded = omega (arith, gone, free.total, free.bounded);
        high = free.high;
      }

  pub take_block-InUse : InUse (take_block pos db) (us ++ vs) pos (db.free_size pos)
  unfolding take_block
  take_block-InUse = (
    All-middle (λ b. b + db.free_size b ≤ db.next_addpos) pos us vs free.below,
    AllApart-middle db.free_size pos us vs free.apart,
  )

  pub take_block-InUse_other :
      (p n : ℕ)
      → InUse db (us ++ pos ∷ vs) p n
      → InUse (take_block pos db) (us ++ vs) p n × Apart p n pos (db.free_size pos)
  unfolding take_block
  take_block-InUse_other p n (u, a) = (
    (u, All-remove (λ b. Apart p n b (db.free_size b)) pos us vs a),
    All-middle (λ b. Apart p n b (db.free_size b)) pos us vs a,
  )

  pub take_block-size : (take_block pos db).freelist_size + db.free_size pos ≡ db.freelist_size
  unfolding take_block
  take_block-size = omega (arith, sum_of-remove db.free_size pos us vs, free.total, free.bounded)
