-- ===== src/Run.antt =====
-- What the code of modules/chanfixdb and modules/admindb returns, and functions that may fail and keep
-- what they wrote before they failed. A u_int keeps its wrap-around, and `npos` is (u_int)-1.
use efnet_services.Common.{ℕ, ◌+◌, ◌-◌, ◌%◌, List}

abbrev pub npos : ℕ
npos = 0xffff_ffff

abbrev pub u32 : ℕ
u32 = 0x1_0000_0000

abbrev pub add32 : ℕ → ℕ → ℕ
add32 a b = (a + b) % u32

abbrev pub sub32 : ℕ → ℕ → ℕ
sub32 a b = (a + u32 - b) % u32

-- Text is its bytes, without the NUL that ends it.
abbrev pub Text : Type 0
Text = List ℕ

-- The values that the functions return. `aborted` and `stuck` are no values of the code: they stand
-- for an assertion that fails and for a loop that has gone round more often than there are records.
pub data Code : Type 0 where
  enoent eexist einval aborted stuck : Code
  os : ℕ → Code

pub data Result {ℓ} (A : Type ℓ) : Type ℓ where
  done : A → Result A
  fail : Code → Result A

-- A function on a state `S` that may fail.
abbrev pub Call {ℓ} : Type 0 → Type ℓ → Type ℓ
Call S A = S → Result A × S

abbrev pub continue {ℓ κ} :
    {S : Type 0} {A : Type ℓ} {B : Type κ} → Result A × S → (A → Call S B) → Result B × S
continue (done a, s) f = f a s
continue (fail c, s) f = (fail c, s)

infixl 5 ◌>>=◌ ◌>>◌
abbrev pub ◌>>=◌ {ℓ κ} :
    {S : Type 0} {A : Type ℓ} {B : Type κ} → Call S A → (A → Call S B) → Call S B
◌>>=◌ m f s = continue (m s) f

abbrev pub ◌>>◌ {κ} : {S : Type 0} {B : Type κ} → Call S (Unit {0}) → Call S B → Call S B
m >> k = m >>= λ _. k
