-- ===== src/Args/Copy.antt =====
-- What si_strncpy leaves in the buffer.
use efnet_services.Common.{
  ℕ, zero, suc, ◌≡◌, refl, ap, ◌≤◌, ◌<◌, ◌-◌, some, List, [], ◌∷◌, ◌++◌, length, take, drop, ne→==,
  arith,
}
use mathlib.Core.Option
use efnet_services.Args.{strncpy_loop, si_strncpy}

-- What the buffer `dest` has when the string `text` and a NUL are written to its front.
abbrev pub written : List ℕ → List ℕ → List ℕ
written text dest = text ++ 0 ∷ drop (suc (length text)) dest

strncpy_loop-written :
    (room : ℕ) (src dest : List ℕ)
    → room < length dest
    → strncpy_loop room src dest ≡ some (written (take room src) dest)
unfolding strncpy_loop
strncpy_loop-written room src [] h = absurd (omega arith)
strncpy_loop-written zero src (b ∷ dest) h = refl
strncpy_loop-written (suc room) [] (b ∷ dest) h = refl
strncpy_loop-written (suc room) (c ∷ src) (b ∷ dest) h =
    ap (Option.map (λ r. c ∷ r)) (strncpy_loop-written room src dest (omega arith))

-- With a length that is not 0 and no more than the buffer has, si_strncpy writes to the front of the
-- buffer as much of the string as fits before a NUL, and the NUL, and leaves the bytes behind it as
-- they were.
pub si_strncpy-written :
    (dest src : List ℕ) (len : ℕ)
    → 0 < len
    → len ≤ length dest
    → si_strncpy dest src len ≡ some (written (take (len - 1) src) dest)
unfolding si_strncpy
si_strncpy-written dest src len positive h =
    rw (ne→== len 0 (λ e. omega arith)) (strncpy_loop-written (len - 1) src dest (omega arith))
