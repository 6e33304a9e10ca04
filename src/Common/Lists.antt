-- ===== src/Common/Lists.antt =====
-- Lists over the native numbers, and predicates on lists by recursion.
use Prim.Native.Nat.{ℕ, zero, suc, ◌+◌, ◌-◌, ◌≤◌, min, ◌<◌}
use mathlib.Core.Path.{◌≡◌, refl, sym, ap, subst, ◌∙◌, fun_ext}
use mathlib.Core.Logic.{◌≢◌, ◌⊎◌, inl, inr}
use mathlib.Core.Bool.{Bool}
use mathlib.Core.List.{List, [], ◌∷◌, ◌++◌}
use native.Mathlib.Omega.{arith}
use efnet_services.Common.Tests.{◌==◌, if◌then◌else◌, eq→==, ne→==, ==→eq, ==_false, Bool-cases}

module _ {ℓ} {A : Type ℓ} where
  abbrev pub length : List A → ℕ
  length [] = 0
  length (x ∷ xs) = suc (length xs)

  abbrev pub take : ℕ → List A → List A
  take zero xs = []
  take (suc n) [] = []
  take (suc n) (x ∷ xs) = x ∷ take n xs

  abbrev pub drop : ℕ → List A → List A
  drop zero xs = xs
  drop (suc n) [] = []
  drop (suc n) (x ∷ xs) = drop n xs

  abbrev pub get_or : List A → ℕ → A → A
  get_or [] i d = d
  get_or (x ∷ xs) zero d = x
  get_or (x ∷ xs) (suc i) d = get_or xs i d

  abbrev pub replicate : ℕ → A → List A
  replicate zero a = []
  replicate (suc n) a = a ∷ replicate n a

  -- The first item, or the last one, of a list that may be empty.
  abbrev pub head_or : A → List A → A
  head_or d [] = d
  head_or d (x ∷ xs) = x

  abbrev pub last_or : A → List A → A
  last_or d [] = d
  last_or d (x ∷ xs) = last_or x xs

  -- The items that pass a test, in their order.
  abbrev pub filter : (A → Bool) → List A → List A
  filter test [] = []
  filter test (x ∷ xs) = if test x then x ∷ filter test xs else filter test xs

  pub length-append : (xs ys : List A) → length (xs ++ ys) ≡ length xs + length ys
  length-append [] ys = omega arith
  length-append (x ∷ xs) ys = omega (arith, length-append xs ys)

  pub length-take : (n : ℕ) (xs : List A) → length (take n xs) ≡ min n (length xs)
  length-take zero xs = omega arith
  length-take (suc n) [] = omega arith
  length-take (suc n) (x ∷ xs) = omega (arith, length-take n xs)

  pub length-drop : (n : ℕ) (xs : List A) → length (drop n xs) ≡ length xs - n
  length-drop zero xs = omega arith
  length-drop (suc n) [] = omega arith
  length-drop (suc n) (x ∷ xs) = omega (arith, length-drop n xs)

  pub take-append-drop : (n : ℕ) (xs : List A) → take n xs ++ drop n xs ≡ xs
  take-append-drop zero xs = refl
  take-append-drop (suc n) [] = refl
  take-append-drop (suc n) (x ∷ xs) = ap (λ l. x ∷ l) (take-append-drop n xs)

  pub take_all : (n : ℕ) (xs : List A) → length xs ≤ n → take n xs ≡ xs
  take_all zero [] h = refl
  take_all zero (x ∷ xs) h = absurd (omega arith)
  take_all (suc n) [] h = refl
  take_all (suc n) (x ∷ xs) h = ap (λ l. x ∷ l) (take_all n xs (omega arith))

  pub drop_all : (n : ℕ) (xs : List A) → length xs ≤ n → drop n xs ≡ []
  drop_all zero [] h = refl
  drop_all zero (x ∷ xs) h = absurd (omega arith)
  drop_all (suc n) [] h = refl
  drop_all (suc n) (x ∷ xs) h = drop_all n xs (omega arith)

  pub drop-append : (n : ℕ) (xs ys : List A) → n ≤ length xs → drop n (xs ++ ys) ≡ drop n xs ++ ys
  drop-append zero xs ys h = refl
  drop-append (suc n) [] ys h = absurd (omega arith)
  drop-append (suc n) (x ∷ xs) ys h = drop-append n xs ys (omega arith)

  pub drop-append_after :
      (n : ℕ) (xs ys : List A) → length xs ≤ n → drop n (xs ++ ys) ≡ drop (n - length xs) ys
  drop-append_after n [] ys h = ap (λ (k : ℕ). drop k ys) (omega arith)
  drop-append_after zero (x ∷ xs) ys h = absurd (omega arith)
  drop-append_after (suc n) (x ∷ xs) ys h =
      drop-append_after n xs ys (omega arith) ∙ ap (λ (k : ℕ). drop k ys) (omega arith)

  drop-nil : (n : ℕ) → drop n [] ≡ []
  drop-nil zero = refl
  drop-nil (suc n) = refl

  pub drop-drop : (m n : ℕ) (xs : List A) → drop n (drop m xs) ≡ drop (m + n) xs
  drop-drop zero n xs = ap (λ (k : ℕ). drop k xs) (omega arith)
  drop-drop (suc m) n [] = drop-nil n ∙ sym (drop-nil (suc m + n))
  drop-drop (suc m) n (x ∷ xs) =
      drop-drop m n xs
      ∙ ap (λ (k : ℕ). drop k (x ∷ xs)) {x = suc (m + n)} {y = suc m + n} (omega arith)

  pub head_or-append : (d : A) (xs ys : List A) → head_or d (xs ++ ys) ≡ head_or (head_or d ys) xs
  head_or-append d [] ys = refl
  head_or-append d (x ∷ xs) ys = refl

  pub last_or-append : (d : A) (xs ys : List A) → last_or d (xs ++ ys) ≡ last_or (last_or d xs) ys
  last_or-append d [] ys = refl
  last_or-append d (x ∷ xs) ys = last_or-append x xs ys

  -- Every item satisfies a predicate.
  abbrev pub All {κ} : (A → Type κ) → List A → Type κ
  All P [] = Unit
  All P (x ∷ xs) = P x × All P xs

  pub All-append {κ} : (P : A → Type κ) (xs ys : List A) → All P xs → All P ys → All P (xs ++ ys)
  All-append P [] ys hx hy = hy
  All-append P (x ∷ xs) ys hx hy = (hx.0, All-append P xs ys hx.1 hy)

  pub All-append_left {κ} : (P : A → Type κ) (xs ys : List A) → All P (xs ++ ys) → All P xs
  All-append_left P [] ys h = tt
  All-append_left P (x ∷ xs) ys h = (h.0, All-append_left P xs ys h.1)

  pub All-append_right {κ} : (P : A → Type κ) (xs ys : List A) → All P (xs ++ ys) → All P ys
  All-append_right P [] ys h = h
  All-append_right P (x ∷ xs) ys h = All-append_right P xs ys h.1

  pub All-map {κ μ} :
      (P : A → Type κ) (Q : A → Type μ) (xs : List A) → ((x : A) → P x → Q x) → All P xs → All Q xs
  All-map P Q [] f h = tt
  All-map P Q (x ∷ xs) f h = (f x h.0, All-map P Q xs f h.1)

  pub All-zip {κ μ ν} :
      (P : A → Type κ) (Q : A → Type μ) (R : A → Type ν) (xs : List A)
      → ((x : A) → P x → Q x → R x)
      → All P xs
      → All Q xs
      → All R xs
  All-zip P Q R [] f h k = tt
  All-zip P Q R (x ∷ xs) f h k = (f x h.0 k.0, All-zip P Q R xs f h.1 k.1)

  pub All-remove {κ} :
      (P : A → Type κ) (x : A) (xs ys : List A) → All P (xs ++ x ∷ ys) → All P (xs ++ ys)
  All-remove P x [] ys h = h.1
  All-remove P x (y ∷ xs) ys h = (h.0, All-remove P x xs ys h.1)

  pub All-middle {κ} : (P : A → Type κ) (x : A) (xs ys : List A) → All P (xs ++ x ∷ ys) → P x
  All-middle P x [] ys h = h.0
  All-middle P x (y ∷ xs) ys h = All-middle P x xs ys h.1

-- Positions are numbers: no two items of the list are equal.
abbrev pub Distinct : List ℕ → Type 0
Distinct [] = Unit
Distinct (x ∷ xs) = All (λ y. x ≢ y) xs × Distinct xs

-- The position is none of the list.
abbrev pub Avoids : ℕ → List ℕ → Type 0
Avoids p = All (λ x. p ≢ x)

pub last_or-ne : (p b : ℕ) (xs : List ℕ) → p ≢ b → Avoids p xs → p ≢ last_or b xs
last_or-ne p b [] n f = n
last_or-ne p b (x ∷ xs) n f = last_or-ne p x xs f.0 f.1

pub head_or-ne : (p b : ℕ) (xs : List ℕ) → p ≢ b → Avoids p xs → p ≢ head_or b xs
head_or-ne p b [] n f = n
head_or-ne p b (x ∷ xs) n f = f.0

pub head_or-All :
    (d : ℕ) (zs xs : List ℕ) → Avoids d zs → All (λ x. Avoids x zs) xs → Avoids (head_or d xs) zs
head_or-All d zs [] h a = h
head_or-All d zs (x ∷ xs) h a = a.0

pub last_or-Avoids :
    (d : ℕ) (xs ys : List ℕ) → Avoids d ys → All (λ x. Avoids x ys) xs → Avoids (last_or d xs) ys
last_or-Avoids d [] ys h a = h
last_or-Avoids d (x ∷ xs) ys h a = last_or-Avoids x xs ys a.0 a.1

pub head_or-Avoids :
    (d : ℕ) (xs ys : List ℕ) → Avoids d xs → All (λ x. Avoids x ys) xs → Avoids (head_or d ys) xs
head_or-Avoids d xs [] h a = h
head_or-Avoids d xs (y ∷ ys) h a =
    All-map (λ x. Avoids x (y ∷ ys)) (λ x. y ≢ x) xs (λ x f e. f.0 (sym e)) a

pub Distinct-left : (xs ys : List ℕ) → Distinct (xs ++ ys) → Distinct xs
Distinct-left [] ys d = tt
Distinct-left (x ∷ xs) ys (f, d) = (All-append_left (λ y. x ≢ y) xs ys f, Distinct-left xs ys d)

pub Distinct-right : (xs ys : List ℕ) → Distinct (xs ++ ys) → Distinct ys
Distinct-right [] ys d = d
Distinct-right (x ∷ xs) ys (f, d) = Distinct-right xs ys d

pub Distinct-across : (xs ys : List ℕ) → Distinct (xs ++ ys) → All (λ x. Avoids x ys) xs
Distinct-across [] ys d = tt
Distinct-across (x ∷ xs) ys (f, d) =
    (All-append_right (λ y. x ≢ y) xs ys f, Distinct-across xs ys d)

pub Distinct-append :
    (xs ys : List ℕ) → Distinct xs → Distinct ys → All (λ x. Avoids x ys) xs → Distinct (xs ++ ys)
Distinct-append [] ys dx dy a = dy
Distinct-append (x ∷ xs) ys (f, dx) dy (g, a) =
    (All-append (λ y. x ≢ y) xs ys f g, Distinct-append xs ys dx dy a)

-- Taking a record out of the list, or putting a new one in, keeps it free of repetition.
pub Distinct-remove : (x : ℕ) (xs ys : List ℕ) → Distinct (xs ++ x ∷ ys) → Distinct (xs ++ ys)
Distinct-remove x [] ys d = d.1
Distinct-remove x (y ∷ xs) ys (f, d) = (
  All-append (λ z. y ≢ z) xs ys (All-append_left (λ z. y ≢ z) xs (x ∷ ys) f)
      (All-append_right (λ z. y ≢ z) xs (x ∷ ys) f).1,
  Distinct-remove x xs ys d,
)

pub Distinct-insert :
    (x : ℕ) (xs ys : List ℕ) → Avoids x (xs ++ ys) → Distinct (xs ++ ys) → Distinct (xs ++ x ∷ ys)
Distinct-insert x [] ys a d = (a, d)
Distinct-insert x (y ∷ xs) ys (n, a) (f, d) = (
  All-append (λ z. y ≢ z) xs (x ∷ ys) (All-append_left (λ z. y ≢ z) xs ys f)
      (λ e. n (sym e), All-append_right (λ z. y ≢ z) xs ys f),
  Distinct-insert x xs ys a d,
)

-- In a list without repetition the item in the middle is none of the others.
pub Distinct-middle : (x : ℕ) (xs ys : List ℕ) → Distinct (xs ++ x ∷ ys) → Avoids x (xs ++ ys)
Distinct-middle x [] ys d = d.0
Distinct-middle x (y ∷ xs) ys (f, d) =
    (λ e. (All-append_right (λ z. y ≢ z) xs (x ∷ ys) f).0 (sym e), Distinct-middle x xs ys d)

-- `f[p] = v`, for a field of the records at the positions.
abbrev pub update {ℓ} : {V : Type ℓ} → (ℕ → V) → ℕ → V → ℕ → V
update f p v q = if q == p then v else f q

pub update_self {ℓ} : {V : Type ℓ} (f : ℕ → V) (p : ℕ) (v : V) → update f p v p ≡ v
update_self f p v = rw (eq→== p p refl)

pub update_ne {ℓ} : {V : Type ℓ} (f : ℕ → V) (p : ℕ) (v : V) (q : ℕ) → q ≢ p → update f p v q ≡ f q
update_ne f p v q n = rw (ne→== q p n)

-- What holds of all values, and of a new one, holds after the write.
pub update-All {ℓ κ} :
    {V : Type ℓ} (P : V → Type κ) (f : ℕ → V) (p : ℕ) (v : V) (xs : List ℕ)
    → P v
    → All (λ x. P (f x)) xs
    → All (λ x. P (update f p v x)) xs
update-All P f p v xs h =
    All-map (λ x. P (f x)) (λ x. P (update f p v x)) xs
      (λ x k. elim (Bool-cases (x == p)) [ inl y ↦ rw y h | inr n ↦ rw n k ])

-- The position is one of the list.
abbrev pub In : ℕ → List ℕ → Type 0
In p [] = ⊥
In p (x ∷ xs) = (p ≡ x) ⊎ In p xs

pub In-remove : (p x : ℕ) (xs ys : List ℕ) → p ≢ x → In p (xs ++ x ∷ ys) → In p (xs ++ ys)
In-remove p x [] ys n (inl e) = absurd (n e)
In-remove p x [] ys n (inr i) = i
In-remove p x (y ∷ xs) ys n (inl e) = inl e
In-remove p x (y ∷ xs) ys n (inr i) = inr (In-remove p x xs ys n i)

pub All-In {κ} : (P : ℕ → Type κ) (p : ℕ) (xs : List ℕ) → All P xs → In p xs → P p
All-In P p [] h i = absurd i
All-In P p (x ∷ xs) h (inl e) = subst P (sym e) h.0
All-In P p (x ∷ xs) h (inr i) = All-In P p xs h.1 i

-- f 0 + ... + f (n - 1)
abbrev pub sum_upto : ℕ → (ℕ → ℕ) → ℕ
sum_upto zero f = 0
sum_upto (suc n) f = sum_upto n f + f n

pub le-sum_upto : (n i : ℕ) (f : ℕ → ℕ) → i < n → f i ≤ sum_upto n f
le-sum_upto zero i f h = absurd (omega arith)
le-sum_upto (suc n) i f h = elim (Bool-cases (i == n)) [
  | inl y ↦ rw (==→eq i n y) (omega arith)
  | inr e ↦ omega (arith, le-sum_upto n i f (omega (arith, ==_false i n e)))
]

sum_upto_same : (n : ℕ) (f g : ℕ → ℕ) → ((j : ℕ) → j < n → g j ≡ f j) → sum_upto n g ≡ sum_upto n f
sum_upto_same zero f g same = refl
sum_upto_same (suc n) f g same =
    omega (arith, sum_upto_same n f g (λ j h. same j (omega arith)), same n (omega arith))

-- A change at one place changes the sum by as much.
pub sum_upto-change :
    (n i : ℕ) (f g : ℕ → ℕ)
    → i < n
    → ((j : ℕ) → j ≢ i → g j ≡ f j)
    → sum_upto n g + f i ≡ sum_upto n f + g i
sum_upto-change zero i f g h same = absurd (omega arith)
sum_upto-change (suc n) i f g h same = elim (Bool-cases (i == n)) [
  | inl y ↦
      rw (==→eq i n y)
        (omega (arith, sum_upto_same n f g (λ j lt. same j (λ e. omega (arith, ==→eq i n y)))))
  | inr e ↦ omega (
    arith,
    sum_upto-change n i f g (omega (arith, ==_false i n e)) same,
    same n (λ k. ==_false i n e (sym k)),
  )
]

-- A function of what a map holds, after a write.
pub map-update {ℓ κ} :
    {A : Type ℓ} {B : Type κ} (f : A → B) (g : ℕ → A) (p : ℕ) (v : A)
    → (λ (c : ℕ). f (update g p v c)) ≡ update (λ c. f (g c)) p (f v)
map-update f g p v =
    fun_ext (λ c. elim (Bool-cases (c == p)) [ inl y ↦ rw y refl | inr n ↦ rw n refl ])

-- Writing what is there already.
pub update_own {ℓ} : {V : Type ℓ} (f : ℕ → V) (p : ℕ) → update f p (f p) ≡ f
update_own f p = fun_ext (λ c. elim (Bool-cases (c == p)) [
  | inl y ↦ rw y (ap f (sym (==→eq c p y)))
  | inr n ↦ rw n refl
])

pub update_twice {ℓ} :
    {V : Type ℓ} (f : ℕ → V) (p : ℕ) (v w : V) → update (update f p v) p w ≡ update f p w
update_twice f p v w =
    fun_ext (λ c. elim (Bool-cases (c == p)) [ inl y ↦ rw y refl | inr n ↦ rw n refl ])

pub In-All {κ} : (P : ℕ → Type κ) (xs : List ℕ) → ((p : ℕ) → In p xs → P p) → All P xs
In-All P [] f = tt
In-All P (x ∷ xs) f = (f x (inl refl), In-All P xs (λ p i. f p (inr i)))
