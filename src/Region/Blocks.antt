-- ===== src/Region/Blocks.antt =====
-- The free blocks of the file as intervals of positions.
use efnet_services.Common.{
  ℕ, ◌≡◌, refl, ◌⊎◌, ◌≤◌, ◌<◌, ◌+◌, List, [], ◌∷◌, ◌++◌, some, length, head_or, All, All-zip,
  All-remove, All-middle, arith,
}
use efnet_services.Links.Insert.{Lists}
use efnet_services.Links.Segment.{Segment}
use efnet_services.Links.Scan.{Found, scan-Found}
use efnet_services.Run.{npos}
use efnet_services.Region.{Region, free_list}
use efnet_services.Region.{find_block, fits}

-- The intervals of `n` positions from `p` on and of `m` positions from `q` on do not meet.
abbrev pub Apart : ℕ → ℕ → ℕ → ℕ → Type 0
Apart p n q m = (p + n ≤ q) ⊎ (q + m ≤ p)

module _ (size : ℕ → ℕ) where
  abbrev pub AllApart : List ℕ → Type 0
  AllApart [] = Unit
  AllApart (b ∷ bs) = All (λ c. Apart b (size b) c (size c)) bs × AllApart bs

  abbrev pub sum_of : List ℕ → ℕ
  sum_of [] = 0
  sum_of (b ∷ bs) = size b + sum_of bs

  pub AllApart-remove : (b : ℕ) (us vs : List ℕ) → AllApart (us ++ b ∷ vs) → AllApart (us ++ vs)
  AllApart-remove b [] vs h = h.1
  AllApart-remove b (u ∷ us) vs (f, h) =
      (All-remove (λ c. Apart u (size u) c (size c)) b us vs f, AllApart-remove b us vs h)

  pub AllApart-middle :
      (b : ℕ) (us vs : List ℕ)
      → AllApart (us ++ b ∷ vs)
      → All (λ c. Apart b (size b) c (size c)) (us ++ vs)
  AllApart-middle b [] vs h = h.0
  AllApart-middle b (u ∷ us) vs (f, h) =
      let k = All-middle (λ c. Apart u (size u) c (size c)) b us vs f in
      (omega arith, AllApart-middle b us vs h)

  pub sum_of-remove : (b : ℕ) (us vs : List ℕ) → sum_of (us ++ b ∷ vs) ≡ size b + sum_of (us ++ vs)
  sum_of-remove b [] vs = refl
  sum_of-remove b (u ∷ us) vs = omega (arith, sum_of-remove b us vs)

  -- Blocks that are not empty are no more than their bytes.
  pub length-le-sum_of : (bs : List ℕ) → All (λ b. 0 < size b) bs → length bs ≤ sum_of bs
  length-le-sum_of [] h = omega arith
  length-le-sum_of (b ∷ bs) (p, h) = omega (arith, length-le-sum_of bs h)

-- What is said of the sizes depends on the sizes of the blocks of the list alone.
pub AllApart-frame :
    (f g : ℕ → ℕ) (bs : List ℕ) → All (λ b. g b ≡ f b) bs → AllApart f bs → AllApart g bs
AllApart-frame f g [] same h = tt
AllApart-frame f g (b ∷ bs) (e, same) (k, h) = (
  All-zip (λ c. g c ≡ f c) (λ c. Apart b (f b) c (f c)) (λ c. Apart b (g b) c (g c)) bs
      (λ c i j. omega arith) same k,
  AllApart-frame f g bs same h,
)

pub sum_of-frame : (f g : ℕ → ℕ) (bs : List ℕ) → All (λ b. g b ≡ f b) bs → sum_of g bs ≡ sum_of f bs
sum_of-frame f g [] same = refl
sum_of-frame f g (b ∷ bs) (e, same) = omega (arith, sum_of-frame f g bs same)

-- The free list stands for the blocks `bs`: none is empty, they do not overlap, they lie below
-- `cfi_next_addpos`, and `cfi_freelist_size` is their sum.
pub record IsFree (db : Region) (bs : List ℕ) : Type 0 where
  pub listed : Lists npos (free_list db) bs
  pub filled : All (λ b. 0 < db.free_size b) bs
  pub below : All (λ b. b + db.free_size b ≤ db.next_addpos) bs
  pub apart : AllApart db.free_size bs
  pub total : db.freelist_size ≡ sum_of db.free_size bs
  pub bounded : db.freelist_size ≤ npos
  pub high : db.next_addpos ≤ npos

-- `n` bytes at `p` that are below `cfi_next_addpos` and in no free block.
abbrev pub InUse : Region → List ℕ → ℕ → ℕ → Type 0
InUse db bs p n = (p + n ≤ db.next_addpos) × All (λ b. Apart p n b (db.free_size b)) bs

-- The loop returns the first block that fits, if there is one, and `npos` if there is none.
pub find_block-Found :
    (db : Region) (size fuel : ℕ) (bs : List ℕ)
    → length bs < fuel
    → Segment npos db.free npos bs npos
    → (r : ℕ) × (find_block fuel db size (head_or npos bs) ≡ some r)
      × Found npos (λ p. fits (db.free_size p) size) bs r
unfolding find_block
find_block-Found db size fuel bs h g =
    scan-Found npos (λ p. fits (db.free_size p) size) db.free fuel npos bs h g
