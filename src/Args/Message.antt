-- ===== src/Args/Message.antt =====
-- A loop on si_nextarg against the line of a message.
use efnet_services.Common.{
  ℕ, zero, suc, ◌≡◌, refl, ap, ◌≢◌, ◌<◌, ◌+◌, false, Option, none, some, List, [], ◌∷◌, ◌++◌,
  length, All, ne→==, arith,
}
use mathlib.Core.Option
use efnet_services.Args.{skip, word, after_word, rest_of, cut_arg, si_nextarg}

-- An argument in the middle of a line: it is not empty, has no space and does not begin with ':'.
abbrev pub IsMiddle : List ℕ → Type 0
IsMiddle [] = ⊥
IsMiddle (c ∷ w) = (c ≢ 58) × (c ≢ 32) × All (λ d. d ≢ 32) w

-- The line: each argument with a space behind it, then ':' and the last argument.
abbrev pub line : List (List ℕ) → List ℕ → List ℕ
line [] last = 58 ∷ last
line (w ∷ ws) last = w ++ 32 ∷ line ws last

abbrev collect : Option (List ℕ) → Option (List (List ℕ)) → Option (List (List ℕ))
collect none rest = some []
collect (some w) rest = Option.map (λ ws. w ∷ ws) rest

-- `while ((arg = si_nextarg(&src, 0)) != NULL)`: the arguments, and `none` when the fuel runs out.
unfoldable pub args : ℕ → Option (List ℕ) → Option (List (List ℕ))
args zero src = none
args (suc fuel) src = collect (si_nextarg false src).0 (args fuel (si_nextarg false src).1)

word-middle : (w r : List ℕ) → All (λ d. d ≢ 32) w → word 32 (w ++ 32 ∷ r) ≡ w
unfolding word
word-middle [] r h = refl
word-middle (c ∷ w) r (n, h) = rw (ne→== c 32 n) (ap (λ k. c ∷ k) (word-middle w r h))

after_word-middle : (w r : List ℕ) → All (λ d. d ≢ 32) w → after_word 32 (w ++ 32 ∷ r) ≡ 32 ∷ r
unfolding after_word
after_word-middle [] r h = refl
after_word-middle (c ∷ w) r (n, h) = rw (ne→== c 32 n) (after_word-middle w r h)

skip-line :
    (ws : List (List ℕ)) (last : List ℕ) → All IsMiddle ws → skip 32 (line ws last) ≡ line ws last
unfolding skip
skip-line [] last h = refl
skip-line ([] ∷ ws) last h = absurd h.0
skip-line ((c ∷ w) ∷ ws) last ((a, b, k), h) = rw (ne→== c 32 b) refl

nextarg-middle :
    (w : List ℕ) (ws : List (List ℕ)) (last : List ℕ)
    → IsMiddle w
    → All IsMiddle ws
    → si_nextarg false (some (line (w ∷ ws) last)) ≡ (some w, some (line ws last))
unfolding si_nextarg cut_arg rest_of
nextarg-middle [] ws last h k = absurd h
nextarg-middle (c ∷ w) ws last (a, b, f) k =
    rw
      (
        skip-line ((c ∷ w) ∷ ws) last ((a, b, f), k),
        ne→== c 58 a,
        word-middle (c ∷ w) (line ws last) (b, f),
        after_word-middle (c ∷ w) (line ws last) (b, f),
        skip-line ws last k,
      )
      refl

nextarg-last : (last : List ℕ) → si_nextarg false (some (58 ∷ last)) ≡ (some last, none)
unfolding si_nextarg cut_arg skip
nextarg-last last = refl

nextarg-null : si_nextarg false none ≡ (none, none)
unfolding si_nextarg
nextarg-null = refl

-- When the arguments in the middle of a line are not empty, have no space and do not begin with a
-- colon, a loop that asks for arguments until it gets none gets back these and the last argument,
-- which may be any string; it needs two rounds more than there are arguments in the middle.
pub args-line :
    (fuel : ℕ) (ws : List (List ℕ)) (last : List ℕ)
    → All IsMiddle ws
    → length ws + 1 < fuel
    → args fuel (some (line ws last)) ≡ some (ws ++ last ∷ [])
unfolding args
args-line zero ws last h k = absurd (omega arith)
args-line (suc zero) ws last h k = absurd (omega arith)
args-line (suc (suc fuel)) [] last h k = rw (nextarg-last last, nextarg-null) refl
args-line (suc (suc fuel)) (w ∷ ws) last (h, hs) k =
    rw (nextarg-middle w ws last h hs)
      (ap (Option.map (λ v. w ∷ v)) (args-line (suc fuel) ws last hs (omega arith)))
