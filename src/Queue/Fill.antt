-- ===== src/Queue/Fill.antt =====
-- What the loop of siqueue_add puts into the last entry of a queue and into new ones.
use efnet_services.Common.{
  ℕ, zero, suc, ◌≡◌, refl, sym, ap, ap₂, ◌∙◌, subst, inl, inr, ◌≤◌, ◌<◌, ◌+◌, ◌-◌, ◌*◌, false, List,
  [], ◌∷◌, ◌++◌, leb, if◌then◌else◌, length, take, All, length-append, length-take, drop-append,
  append-nil, append_assoc, Bool-cases, leb→le, le→leb, leb-false, arith,
}
use efnet_services.Queue.{
  Entry, Filled, Code, ok, enomem, capacity, fresh, copy, numleft, slice, prepend, add_loop,
  add_to_tail,
}
use efnet_services.Queue.Bytes.{contents, IsEntry}

-- The room that is left in the last entry of a queue; a new queue gets an entry.
abbrev pub room : List Entry → ℕ
room [] = capacity
room (qe ∷ []) = numleft qe
room (qe ∷ e ∷ es) = room (e ∷ es)

-- The bytes that the loop copies: it fills the room that is left, and starts each further entry
-- with the first bytes of the buffer again.
unfoldable pub pieces : ℕ → List ℕ → ℕ → ℕ → List ℕ
pieces zero buffer buflen left = if leb buflen left then take buflen buffer else take left buffer
pieces (suc budget) buffer buflen left =
    let rest = take left buffer ++ pieces budget buffer (buflen - left) capacity in
    if leb buflen left then take buflen buffer else rest

slice-copy :
    (qe : Entry) (buffer : List ℕ) (n : ℕ)
    → IsEntry qe
    → slice (copy qe buffer n) ≡ slice qe ++ take n buffer
slice-copy qe buffer n (h, _) = drop-append qe.bufpos qe.bytes (take n buffer) h

copy-IsEntry :
    (qe : Entry) (buffer : List ℕ) (n : ℕ)
    → IsEntry qe
    → n ≤ numleft qe
    → IsEntry (copy qe buffer n)
copy-IsEntry qe buffer n (h, k) le = (
  omega (arith, length-append qe.bytes (take n buffer)),
  omega (arith, length-append qe.bytes (take n buffer), length-take n buffer),
)

-- The entries hold the bytes `old` and behind them the bytes `new`, `new` has the length that is
-- added to `q_size`, and the code is `c`.
pub record Holds (f : Filled) (old new : List ℕ) (c : Code) : Type 0 where
  pub bytes : contents f.tail ≡ old ++ new
  pub copied : f.copied ≡ length new
  pub entries : All IsEntry f.tail
  pub code : f.code ≡ c

-- Whether the room in the last entry and in the entries of the budget is enough.
abbrev pub expected : ℕ → ℕ → ℕ → Code
expected budget buflen left = if leb buflen (left + budget * capacity) then ok else enomem

module _ (qe : Entry) (buffer : List ℕ) (n : ℕ) (h : IsEntry qe) (le : n ≤ numleft qe)
    (len : n ≤ length buffer) where
  one-Holds :
      (c : Code) (budget : ℕ)
      → Holds
          (record { code = c; tail = copy qe buffer n ∷ []; copied = n; budget = budget })
          (slice qe)
          (take n buffer)
          c
  unfolding contents
  one-Holds c budget = record {
    bytes = append-nil (slice (copy qe buffer n)) ∙ slice-copy qe buffer n h;
    copied = omega (arith, length-take n buffer);
    entries = (copy-IsEntry qe buffer n h le, tt);
    code = refl;
  }

  prepend-Holds :
      (f : Filled) (new : List ℕ) (c : Code)
      → Holds f [] new c
      → Holds (prepend (copy qe buffer n) n f) (slice qe) (take n buffer ++ new) c
  unfolding contents
  prepend-Holds f new c r = record {
    bytes =
        ap₂ (λ a b. a ++ b) (slice-copy qe buffer n h) r.bytes
        ∙ append_assoc (slice qe) (take n buffer) new;
    copied = omega (arith, r.copied, length-append (take n buffer) new, length-take n buffer);
    entries = (copy-IsEntry qe buffer n h le, r.entries);
    code = r.code;
  }

pub add_loop-Holds :
    (budget : ℕ) (buffer : List ℕ) (buflen : ℕ) (qe : Entry)
    → IsEntry qe
    → buflen ≤ length buffer
    → Holds
        (add_loop budget buffer buflen qe)
        (slice qe)
        (pieces budget buffer buflen (numleft qe))
        (expected budget buflen (numleft qe))
unfolding add_loop pieces
add_loop-Holds zero buffer buflen qe h len =
    let e : numleft qe + 0 * capacity ≡ numleft qe = omega arith in
    elim (Bool-cases (leb buflen (numleft qe))) [
      | inl y ↦ rw (e, y) (one-Holds qe buffer buflen h (leb→le buflen (numleft qe) y) len ok 0)
      | inr n ↦
          rw (e, n)
            (one-Holds qe buffer (numleft qe) h (omega arith)
              (omega (arith, leb-false buflen (numleft qe) n)) enomem 0)
    ]
add_loop-Holds (suc budget) buffer buflen qe h len = elim (Bool-cases (leb buflen (numleft qe))) [
  | inl y ↦
      let le = leb→le buflen (numleft qe) y in
      rw (y, le→leb buflen (numleft qe + suc budget * capacity) (omega arith))
        (one-Holds qe buffer buflen h le len ok (suc budget))
  | inr n ↦
      let over = leb-false buflen (numleft qe) n in
      let rest =
        add_loop-Holds budget buffer (buflen - numleft qe) fresh (omega arith, omega arith)
          (omega arith) in
      let e : expected (suc budget) buflen (numleft qe)
          ≡ expected budget (buflen - numleft qe) capacity =
        ground arith in
      rw (n, e) (prepend-Holds qe buffer (numleft qe) h (omega arith) (omega arith) _ _ _ rest)
]

pub add_to_tail-Holds :
    (budget : ℕ) (buffer : List ℕ) (buflen : ℕ) (qe : Entry) (es : List Entry)
    → All IsEntry (qe ∷ es)
    → buflen ≤ length buffer
    → Holds
        (add_to_tail budget buffer buflen qe es)
        (contents (qe ∷ es))
        (pieces budget buffer buflen (room (qe ∷ es)))
        (expected budget buflen (room (qe ∷ es)))
unfolding add_to_tail contents
add_to_tail-Holds budget buffer buflen qe [] h len =
    subst
      (λ k.
        Holds (add_loop budget buffer buflen qe) k (pieces budget buffer buflen (numleft qe))
          (expected budget buflen (numleft qe)))
      (sym (append-nil (slice qe))) (add_loop-Holds budget buffer buflen qe h.0 len)
add_to_tail-Holds budget buffer buflen qe (e ∷ es) h len =
    let r = add_to_tail-Holds budget buffer buflen e es h.1 len in
    record {
      bytes =
          ap (λ k. slice qe ++ k) r.bytes
          ∙ sym (
              append_assoc (slice qe) (contents (e ∷ es))
                (pieces budget buffer buflen (room (e ∷ es))));
      copied = omega (arith, r.copied);
      entries = (h.0, r.entries);
      code = r.code;
    }

pub length-pieces-le :
    (budget : ℕ) (buffer : List ℕ) (buflen left : ℕ)
    → length (pieces budget buffer buflen left) ≤ buflen
unfolding pieces
length-pieces-le zero buffer buflen left = elim (Bool-cases (leb buflen left)) [
  | inl y ↦ rw y (omega (arith, length-take buflen buffer))
  | inr n ↦ rw n (omega (arith, length-take left buffer, leb-false buflen left n))
]
length-pieces-le (suc budget) buffer buflen left = elim (Bool-cases (leb buflen left)) [
  | inl y ↦ rw y (omega (arith, length-take buflen buffer))
  | inr n ↦ rw n (
      omega (
        arith,
        length-take left buffer,
        leb-false buflen left n,
        length-pieces-le budget buffer (buflen - left) capacity,
        length-append (take left buffer) (pieces budget buffer (buflen - left) capacity),
      ))
]

pub contents-nil : contents [] ≡ []
unfolding contents
contents-nil = refl

pub pieces_one :
    (budget : ℕ) (buffer : List ℕ) (buflen left : ℕ)
    → buflen ≤ left
    → pieces budget buffer buflen left ≡ take buflen buffer
unfolding pieces
pieces_one zero buffer buflen left h = rw (le→leb buflen left h)
pieces_one (suc budget) buffer buflen left h = rw (le→leb buflen left h)

pub pieces_two :
    (budget : ℕ) (buffer : List ℕ) (buflen left : ℕ)
    → 0 < budget
    → left < buflen
    → buflen ≤ left + capacity
    → pieces budget buffer buflen left ≡ take left buffer ++ take (buflen - left) buffer
unfolding pieces
pieces_two zero buffer buflen left p over h = absurd (omega arith)
pieces_two (suc budget) buffer buflen left p over h =
    let n : leb buflen left ≡ false = ground arith in
    rw n (
      ap (λ k. take left buffer ++ k)
        (pieces_one budget buffer (buflen - left) capacity (omega arith)))
