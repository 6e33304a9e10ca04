-- ===== src/Region/Use.antt =====
-- A free block that comes into use, and what is too much of it.
use efnet_services.Common.{
  ℕ, ◌≡◌, subst, ◌⊎◌, inl, inr, ◌≤◌, ◌+◌, ◌-◌, List, ◌∷◌, ◌++◌, true, ◌==◌, All-map, Bool-cases,
  ==→eq, ==_false, arith,
}
use efnet_services.Run.{add32}
use efnet_services.Region.{Region}
use efnet_services.Region.{take_block, use_block, fits}
use efnet_services.Region.Blocks.{Apart, IsFree, InUse}
use efnet_services.Region.Safety.{
  del_space-IsFree, del_space-InUse, take_block-IsFree, take_block-InUse, take_block-InUse_other,
  take_block-size,
}

-- From a state to a later one, `size` bytes at `pos` come into use: the later one is well-formed,
-- the bytes are no part of a free block, and what was in use is still in use and does not meet them.
abbrev pub Gives : Region → List ℕ → ℕ → ℕ → Region → Type 0
Gives db bs pos size r =
    (cs : List ℕ) × IsFree r cs
    × InUse r cs pos size
    × ((p n : ℕ) → InUse db bs p n → InUse r cs p n × Apart p n pos size)

fits-cases : (have size : ℕ) → fits have size ≡ true → (have ≡ size) ⊎ (size + 12 ≤ have)
fits-cases have size h = ground arith

module _ (db : Region) (us vs : List ℕ) (pos size : ℕ) (free : IsFree db (us ++ pos ∷ vs))
    (fit : fits (db.free_size pos) size ≡ true) where
  abbrev rest : Region
  rest = take_block pos db

  pub use_block-Gives : Gives db (us ++ pos ∷ vs) pos size (use_block size pos db)
  unfolding use_block
  use_block-Gives =
      let have = db.free_size pos in
      let (below, apart) = take_block-InUse db us vs pos free in
      let left = take_block-IsFree db us vs pos free in
      elim (Bool-cases (have - size == 0)) [
        | inl y ↦
            let e : have ≡ size =
              ground (arith, fits-cases have size fit, ==→eq (have - size) 0 y) in
            rw y (
              us ++ vs,
              left,
              subst (λ k. InUse rest (us ++ vs) pos k) e (below, apart),
              λ p n u.
                  subst (λ k. InUse rest (us ++ vs) p n × Apart p n pos k) e
                    (take_block-InUse_other db us vs pos free p n u),
            )
        | inr n ↦
            let more : size + 12 ≤ have =
              ground (arith, fits-cases have size fit, ==_false (have - size) 0 n) in
            let e : add32 pos size ≡ pos + size = omega (arith, left.high) in
            let tail : InUse rest (us ++ vs) (pos + size) (have - size) = (
              omega arith,
              All-map (λ b. Apart pos have b (rest.free_size b))
                  (λ b. Apart (pos + size) (have - size) b (rest.free_size b)) (us ++ vs)
                  (λ b a. omega arith) apart,
            ) in
            let front : InUse rest (us ++ vs) pos size = (
              omega arith,
              All-map (λ b. Apart pos have b (rest.free_size b))
                  (λ b. Apart pos size b (rest.free_size b)) (us ++ vs) (λ b a. omega arith) apart,
            ) in
            let other =
              del_space-InUse rest (us ++ vs) left (pos + size) (have - size) tail (omega arith) in
            rw (n, e)
              (
                (pos + size) ∷ (us ++ vs),
                del_space-IsFree rest (us ++ vs) left (pos + size) (have - size) tail (omega arith)
                    (omega (arith, take_block-size db us vs pos free, free.bounded)),
                other pos size front (omega arith),
                λ p m u.
                    let (k, a) = take_block-InUse_other db us vs pos free p m u in
                    (other p m k (omega arith), omega arith),
              )
      ]
