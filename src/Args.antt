-- ===== src/Args.antt =====
-- The arguments of a line: si_nextarg, si_next_subarg_space, si_next_subarg_comma and si_strncpy of
-- daemon/misc.c. A string is its bytes without the NUL that ends it. `*src` is a string or NULL; a NUL
-- that is written behind an argument ends that argument. A call with a NULL `src` is not modelled.
pub mod Words
pub mod Message
pub mod Copy
use efnet_services.Common.{
  ℕ, zero, suc, ◌-◌, Bool, true, false, Option, none, some, List, [], ◌∷◌, ◌==◌, if◌then◌else◌,
}
use mathlib.Core.Option

-- `while (*s == sep) s++`
unfoldable pub skip : ℕ → List ℕ → List ℕ
skip sep [] = []
skip sep (c ∷ s) = let rest = skip sep s in if c == sep then rest else c ∷ s

-- `while (*s && *s != sep) s++`: what it steps over, and where it stops.
unfoldable pub word : ℕ → List ℕ → List ℕ
word sep [] = []
word sep (c ∷ s) = let rest = word sep s in if c == sep then [] else c ∷ rest

unfoldable pub after_word : ℕ → List ℕ → List ℕ
after_word sep [] = []
after_word sep (c ∷ s) = let rest = after_word sep s in if c == sep then c ∷ s else rest

-- What `*src` is set to when the word ended at `s`.
unfoldable pub next_src : ℕ → List ℕ → Option (List ℕ)
next_src sep [] = none
next_src sep (c ∷ s) = some (skip sep s)

-- From the first byte that is no separator on.
unfoldable pub cut_word : ℕ → List ℕ → List ℕ → Option (List ℕ) × Option (List ℕ)
cut_word sep s [] = (none, some s)
cut_word sep s (c ∷ t) = (some (word sep (c ∷ t)), next_src sep (after_word sep (c ∷ t)))

-- si_next_subarg_space and si_next_subarg_comma: the argument, and `*src` after the call.
unfoldable pub next_subarg : ℕ → Option (List ℕ) → Option (List ℕ) × Option (List ℕ)
next_subarg sep none = (none, none)
next_subarg sep (some s) = cut_word sep s (skip sep s)

abbrev pub si_next_subarg_space : Option (List ℕ) → Option (List ℕ) × Option (List ℕ)
si_next_subarg_space = next_subarg 32

abbrev pub si_next_subarg_comma : Option (List ℕ) → Option (List ℕ) × Option (List ℕ)
si_next_subarg_comma = next_subarg 44

-- Where si_nextarg leaves `*src` when the word ended at `s`: at the end, and not NULL.
unfoldable pub rest_of : List ℕ → List ℕ
rest_of [] = []
rest_of (c ∷ s) = skip 32 s

-- si_nextarg from the first byte that is no space on; 58 is ':'.
unfoldable pub cut_arg : Bool → List ℕ → Option (List ℕ) × Option (List ℕ)
cut_arg last [] = (none, some [])
cut_arg last (c ∷ t) =
    if c == 58
    then (some t, none)
    else if last
    then (some (c ∷ t), none)
    else (some (word 32 (c ∷ t)), some (rest_of (after_word 32 (c ∷ t))))

-- si_nextarg; `last` is the flag SI_NEXTARG_FLAGS_LASTARG.
unfoldable pub si_nextarg : Bool → Option (List ℕ) → Option (List ℕ) × Option (List ℕ)
si_nextarg last none = (none, none)
si_nextarg last (some []) = (none, some [])
si_nextarg last (some (c ∷ s)) = cut_arg last (skip 32 (c ∷ s))

-- The loop of si_strncpy and the NUL behind it, on the bytes from `dest` on; `room` is
-- `ending - dest`. `none` is a write behind the buffer.
unfoldable pub strncpy_loop : ℕ → List ℕ → List ℕ → Option (List ℕ)
strncpy_loop room src [] = none
strncpy_loop zero src (b ∷ dest) = some (0 ∷ dest)
strncpy_loop (suc room) [] (b ∷ dest) = some (0 ∷ dest)
strncpy_loop (suc room) (c ∷ src) (b ∷ dest) = Option.map (λ r. c ∷ r) (strncpy_loop room src dest)

-- si_strncpy, for a length that is not negative
unfoldable pub si_strncpy : List ℕ → List ℕ → ℕ → Option (List ℕ)
si_strncpy dest src len = if len == 0 then some dest else strncpy_loop (len - 1) src dest
