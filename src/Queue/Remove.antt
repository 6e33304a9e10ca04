-- ===== src/Queue/Remove.antt =====
-- What siqueue_del and siqueue_get do to the bytes of a queue.
use efnet_services.Common.{
  ℕ, zero, suc, ◌≡◌, refl, sym, ap, ◌∙◌, subst, ◌≤◌, ◌+◌, ◌-◌, some, List, [], ◌∷◌, ◌++◌, ◌==◌, leb,
  length, drop, All, length-append, length-drop, drop-append, drop-append_after, drop-drop,
  drop_all, append-nil, append_assoc, Bool-cases, inl, inr, leb→le, le→leb, leb-false, ==→eq, arith,
}
use mathlib.Core.List.{flatten}
use mathlib.Core.Option
use efnet_services.Queue.{
  Queue, Entry, fresh, slice, avail, del_last, del_loop, siqueue_del, get_loop, siqueue_get,
  parts_code,
}
use efnet_services.Queue.Bytes.{contents, IsEntry, IsQueue}

contents-nil : contents [] ≡ []
unfolding contents
contents-nil = refl

-- The entries hold `bytes`, and their offsets are good.
abbrev pub Holds : List Entry → List ℕ → Type 0
Holds es bytes = (contents es ≡ bytes) × All IsEntry es

length-slice : (qe : Entry) → length (slice qe) ≡ avail qe
length-slice qe = length-drop qe.bufpos qe.bytes

del_last-Holds :
    (qe : Entry) (rest : List Entry) (len : ℕ)
    → IsEntry qe
    → All IsEntry rest
    → len ≤ avail qe
    → Holds (del_last qe rest len) (drop len (slice qe) ++ contents rest)
unfolding del_last contents
del_last-Holds qe rest len (h, k) all le = elim (Bool-cases (length qe.bytes == qe.bufpos + len)) [
  | inl y ↦
      let e = ==→eq (length qe.bytes) (qe.bufpos + len) y in
      let gone : drop len (slice qe) ≡ [] =
        drop_all len (slice qe) (omega (arith, length-slice qe)) in
      rw (y, gone) (last rest all)
  | inr n ↦ rw n (
    ap (λ k. k ++ contents rest) (sym (drop-drop qe.bufpos len qe.bytes)),
    ((omega arith, k), all),
  )
]
  where
    last :
        (r : List Entry)
        → All IsEntry r
        → Holds (elim r [ [] ↦ fresh ∷ [] | e ∷ es ↦ e ∷ es ]) (contents r)
    last [] a = (refl, ((omega arith, omega arith), tt))
    last (e ∷ es) a = (refl, a)

-- With that many bytes in the entries the loop drops the first `len` and meets no assertion.
del_loop-Holds :
    (qe : Entry) (es : List Entry) (len : ℕ)
    → All IsEntry (qe ∷ es)
    → len ≤ length (contents (qe ∷ es))
    → (r : List Entry) × (del_loop (qe ∷ es) len ≡ some r) × Holds r (drop len (contents (qe ∷ es)))
unfolding del_loop contents
del_loop-Holds qe [] len h le =
    let fits : len ≤ avail qe = omega (arith, length-slice qe, ap length (append-nil (slice qe))) in
    let (b, a) = del_last-Holds qe [] len h.0 tt fits in
    (
      del_last qe [] len,
      rw (le→leb len (avail qe) fits) refl,
      (b ∙ sym (drop-append len (slice qe) [] (omega (arith, length-slice qe))), a),
    )
del_loop-Holds qe (e ∷ es) len h le = elim (Bool-cases (leb len (avail qe))) [
  | inl y ↦
      let fits = leb→le len (avail qe) y in
      let (b, a) = del_last-Holds qe (e ∷ es) len h.0 h.1 fits in
      (
        del_last qe (e ∷ es) len,
        rw y refl,
        (
          b ∙ sym (drop-append len (slice qe) (contents (e ∷ es)) (omega (arith, length-slice qe))),
          a,
        ),
      )
  | inr n ↦
      let over = leb-false len (avail qe) n in
      let (r, i, (b, a)) =
        del_loop-Holds e es (len - avail qe) h.1
          (omega (arith, length-slice qe, length-append (slice qe) (contents (e ∷ es)))) in
      (
        r,
        rw n i,
        (
          b
              ∙ ap (λ (k : ℕ). drop (len - k) (contents (e ∷ es))) (sym (length-slice qe))
              ∙ sym (
                  drop-append_after len (slice qe) (contents (e ∷ es))
                    (omega (arith, length-slice qe))),
          a,
        ),
      )
]

-- Deleting as many bytes as a well-formed queue has, or fewer, meets no assertion, drops them from
-- the front and gives a well-formed queue.
pub siqueue_del-drop :
    (q : Queue) (len : ℕ)
    → IsQueue q
    → len ≤ q.size
    → (r : Queue) × (siqueue_del q len ≡ some r)
      × IsQueue r
      × (contents r.entries ≡ drop len (contents q.entries))
unfolding siqueue_del
siqueue_del-drop q len good le = rw (le→leb len q.size le) (go q.entries refl)
  where
    go :
        (es : List Entry)
        → q.entries ≡ es
        → (r : Queue) × ((elim es [
          | [] ↦ some q
          | e ∷ es ↦
              Option.map
                (λ k. record q { size = q.size - len; entries = k })
                (del_loop (e ∷ es) len)
        ])
            ≡ some r)
          × IsQueue r
          × (contents r.entries ≡ drop len (contents q.entries))
    go [] e =
        let z : contents q.entries ≡ [] = ap contents e ∙ contents-nil in
        (q, refl, good, rw z (sym (drop_all len [] (omega arith))))
    go (x ∷ xs) e =
        let same = ap contents e in
        let (r, i, (b, a)) =
          del_loop-Holds x xs len (subst (All IsEntry) e good.entries)
            (omega (arith, good.counted, ap length same)) in
        (
          record q { size = q.size - len; entries = r },
          rw i refl,
          record {
            entries = a;
            counted = omega (
              arith,
              good.counted,
              ap length same,
              ap length b,
              length-drop len (contents (x ∷ xs)),
            );
            attached = good.attached;
          },
          b ∙ ap (drop len) (sym same),
        )

-- The parts are the first bytes of the entries in order, all of them if there are enough parts for
-- the entries.
get_loop-flatten :
    (n : ℕ) (es : List Entry)
    → (rest : List ℕ) × (flatten (get_loop n es) ++ rest ≡ contents es)
      × (length es ≤ n → rest ≡ [])
unfolding get_loop contents flatten
get_loop-flatten zero [] = ([], refl, λ h. refl)
get_loop-flatten zero (qe ∷ es) = (contents (qe ∷ es), refl, λ h. absurd (omega arith))
get_loop-flatten (suc n) [] = ([], refl, λ h. refl)
get_loop-flatten (suc n) (qe ∷ es) =
    go (slice qe) (get_loop-flatten (suc n) es) (get_loop-flatten n es)
  where
    go :
        (bytes : List ℕ)
        → (rest : List ℕ) × (flatten (get_loop (suc n) es) ++ rest ≡ contents es)
          × (length es ≤ suc n → rest ≡ [])
        → (rest : List ℕ) × (flatten (get_loop n es) ++ rest ≡ contents es)
          × (length es ≤ n → rest ≡ [])
        → (rest : List ℕ) × (flatten
                (elim bytes [ [] ↦ get_loop (suc n) es | b ∷ bs ↦ (b ∷ bs) ∷ get_loop n es ])
              ++ rest
            ≡ bytes ++ contents es)
          × (suc (length es) ≤ suc n → rest ≡ [])
    go [] (rest, i, all) other = (rest, i, λ h. all (omega arith))
    go (b ∷ bs) other (rest, i, all) = (
      rest,
      append_assoc (b ∷ bs) (flatten (get_loop n es)) rest ∙ ap (λ k. (b ∷ bs) ++ k) i,
      λ h. all (omega arith),
    )

parts_code-snd : (parts : List (List ℕ)) → (parts_code parts).1 ≡ parts
unfolding parts_code
parts_code-snd [] = refl
parts_code-snd (p ∷ ps) = refl

-- The parts that siqueue_get returns are the first bytes of the queue, in order.
pub siqueue_get-flatten :
    (q : Queue) (iov_num : ℕ)
    → (rest : List ℕ) × (flatten (siqueue_get q iov_num).1 ++ rest ≡ contents q.entries)
unfolding siqueue_get
siqueue_get-flatten q n =
    let (rest, e, all) = get_loop-flatten n q.entries in
    (rest, ap (λ k. flatten k ++ rest) (parts_code-snd (get_loop n q.entries)) ∙ e)

-- The parts that siqueue_get returns are all the bytes of the queue, in order, when the array has a
-- place for each entry.
pub siqueue_get-all :
    (q : Queue) (iov_num : ℕ)
    → length q.entries ≤ iov_num
    → flatten (siqueue_get q iov_num).1 ≡ contents q.entries
unfolding siqueue_get
siqueue_get-all q n h =
    let (rest, e, all) = get_loop-flatten n q.entries in
    ap flatten (parts_code-snd (get_loop n q.entries))
    ∙ sym (append-nil (flatten (get_loop n q.entries)))
    ∙ ap (λ k. flatten (get_loop n q.entries) ++ k) (sym (all h))
    ∙ e
