-- ===== src/Args/Words.antt =====
-- A loop on next_subarg against the words of a string.
use efnet_services.Common.{
  ℕ, zero, suc, ◌≡◌, refl, sym, ap, ◌∙◌, ◌≤◌, ◌<◌, ◌-◌, true, false, Option, none, some, List, [],
  ◌∷◌, ◌==◌, if◌then◌else◌, length, Bool-cases, inl, inr, ◌⊎◌, arith,
}
use mathlib.Core.Option
use efnet_services.Args.{skip, word, after_word, next_src, cut_word, next_subarg}

-- The strings between the separators, empty ones included.
abbrev put_front : ℕ → List (List ℕ) → List (List ℕ)
put_front c [] = (c ∷ []) ∷ []
put_front c (w ∷ ws) = (c ∷ w) ∷ ws

unfoldable pub split : ℕ → List ℕ → List (List ℕ)
split sep [] = [] ∷ []
split sep (c ∷ s) = if c == sep then [] ∷ split sep s else put_front c (split sep s)

-- Those that are not empty.
abbrev pub not_empty : List (List ℕ) → List (List ℕ)
not_empty [] = []
not_empty ([] ∷ ws) = not_empty ws
not_empty ((c ∷ w) ∷ ws) = (c ∷ w) ∷ not_empty ws

abbrev collect : Option (List ℕ) → Option (List (List ℕ)) → Option (List (List ℕ))
collect none rest = some []
collect (some w) rest = Option.map (λ ws. w ∷ ws) rest

-- `while ((tok = next_subarg(&src)) != NULL)`: the arguments, and `none` when the fuel runs out.
unfoldable pub subargs : ℕ → ℕ → Option (List ℕ) → Option (List (List ℕ))
subargs zero sep src = none
subargs (suc fuel) sep src =
    collect (next_subarg sep src).0 (subargs fuel sep (next_subarg sep src).1)

module _ (sep : ℕ) where
  -- What the loop still has to return when a word ended at `s`.
  abbrev tail_words : List ℕ → List (List ℕ)
  tail_words [] = []
  tail_words (c ∷ s) = split sep s

  split-nil : not_empty (split sep []) ≡ []
  unfolding split
  split-nil = refl

  split_at : (c : ℕ) (s : List ℕ) → (c == sep) ≡ true → split sep (c ∷ s) ≡ [] ∷ split sep s
  unfolding split
  split_at c s y = rw y refl

  split-skip : (s : List ℕ) → not_empty (split sep (skip sep s)) ≡ not_empty (split sep s)
  unfolding skip
  split-skip [] = refl
  split-skip (c ∷ s) = elim (Bool-cases (c == sep)) [
    | inl y ↦ rw y (split-skip s ∙ ap not_empty (sym (split_at c s y)))
    | inr n ↦ rw n refl
  ]

  split-word : (s : List ℕ) → split sep s ≡ word sep s ∷ tail_words (after_word sep s)
  unfolding split word after_word
  split-word [] = refl
  split-word (c ∷ s) = elim (Bool-cases (c == sep)) [
    | inl y ↦ rw y refl
    | inr n ↦ rw n (ap (put_front c) (split-word s))
  ]

  length-skip : (s : List ℕ) → length (skip sep s) ≤ length s
  unfolding skip
  length-skip [] = omega arith
  length-skip (c ∷ s) = elim (Bool-cases (c == sep)) [
    | inl y ↦ rw y (omega (arith, length-skip s))
    | inr n ↦ rw n (omega arith)
  ]

  length-after_word : (s : List ℕ) → length (after_word sep s) ≤ length s
  unfolding after_word
  length-after_word [] = omega arith
  length-after_word (c ∷ s) = elim (Bool-cases (c == sep)) [
    | inl y ↦ rw y (omega arith)
    | inr n ↦ rw n (omega (arith, length-after_word s))
  ]

  skip-cases :
      (s : List ℕ)
      → (skip sep s ≡ []) ⊎ ((c : ℕ) × (t : List ℕ) × (skip sep s ≡ c ∷ t) × ((c == sep) ≡ false))
  unfolding skip
  skip-cases [] = inl refl
  skip-cases (c ∷ s) = elim (Bool-cases (c == sep)) [
    | inl y ↦ rw y (skip-cases s)
    | inr n ↦ rw n (inr (c, s, refl, n))
  ]

  subargs-null : (fuel : ℕ) → subargs (suc fuel) sep none ≡ some []
  unfolding subargs next_subarg
  subargs-null fuel = refl

  word-cons : (c : ℕ) (t : List ℕ) → (c == sep) ≡ false → word sep (c ∷ t) ≡ c ∷ word sep t
  unfolding word
  word-cons c t n = rw n refl

  -- The words of a string that begins with one.
  words-cut :
      (c : ℕ) (t : List ℕ)
      → (c == sep) ≡ false
      → not_empty (split sep (c ∷ t))
        ≡ word sep (c ∷ t) ∷ not_empty (tail_words (after_word sep (c ∷ t)))
  words-cut c t n = ap not_empty (split-word (c ∷ t)) ∙ rw (word-cons c t n) refl

  module _ (fuel : ℕ)
      (next : (s : List ℕ)
        → length s < fuel
        → subargs fuel sep (some s) ≡ some (not_empty (split sep s))) where
    subargs-next_src :
        (u : List ℕ)
        → 0 < fuel
        → length u ≤ fuel
        → subargs fuel sep (next_src sep u) ≡ some (not_empty (tail_words u))
    unfolding next_src
    subargs-next_src [] positive h =
        ap (λ (k : ℕ). subargs k sep none) (omega arith) ∙ subargs-null (fuel - 1)
    subargs-next_src (d ∷ u) positive h =
        next (skip sep u) (omega (arith, length-skip u)) ∙ ap some (split-skip u)

    subargs-cut :
        (s : List ℕ) (c : ℕ) (t : List ℕ)
        → skip sep s ≡ c ∷ t
        → (c == sep) ≡ false
        → length s ≤ fuel
        → Option.map
            (λ ws. word sep (c ∷ t) ∷ ws)
            (subargs fuel sep (next_src sep (after_word sep (c ∷ t))))
          ≡ some (not_empty (split sep s))
    subargs-cut s c t e n h =
        let short : suc (length t) ≤ length s = omega (arith, length-skip s, ap length e) in
        ap (Option.map (λ ws. word sep (c ∷ t) ∷ ws)) (
          subargs-next_src (after_word sep (c ∷ t)) (omega arith)
            (omega (arith, length-after_word (c ∷ t))))
        ∙ ap some (sym (words-cut c t n) ∙ ap (λ k. not_empty (split sep k)) (sym e) ∙ split-skip s)

  -- A loop that asks for arguments until it gets none gets the strings between separators that are
  -- not empty, in order; it ends after no more rounds than the string has bytes, and one.
  pub subargs-split :
      (fuel : ℕ) (s : List ℕ)
      → length s < fuel
      → subargs fuel sep (some s) ≡ some (not_empty (split sep s))
  unfolding subargs next_subarg cut_word
  subargs-split zero s h = absurd (omega arith)
  subargs-split (suc fuel) s h = elim (skip-cases s) [
    | inl e ↦
        rw e (ap some (sym split-nil ∙ ap (λ k. not_empty (split sep k)) (sym e) ∙ split-skip s))
    | inr (c, t, e, n) ↦ rw e (subargs-cut fuel (subargs-split fuel) s c t e n (omega arith))
  ]
