-- ===== src/Queue/Add.antt =====
-- What siqueue_add does to the bytes of a queue.
use efnet_services.Common.{
  ℕ, zero, suc, ◌≡◌, refl, sym, ap, ◌∙◌, subst, ◌≢◌, ◌⊎◌, inl, inr, ◌≤◌, ◌<◌, ◌+◌, ◌-◌, ◌*◌, some,
  List, [], ◌∷◌, ◌++◌, length, take, All, length-append, le→leb, ne→==, arith,
}
use efnet_services.Queue.{
  Queue, Entry, Filled, Code, ok, capacity, u32, fresh, add_loop, add_to_tail, add_entries, store,
  siqueue_add,
}
use efnet_services.Queue.Bytes.{contents, IsEntry, IsQueue}
use efnet_services.Queue.Fill.{
  room, pieces, Holds, expected, add_loop-Holds, add_to_tail-Holds, length-pieces-le, contents-nil,
  pieces_one, pieces_two,
}

-- What is left of the budget when an empty queue has got its first entry.
abbrev pub spare : ℕ → List Entry → ℕ
spare budget [] = budget - 1
spare budget (e ∷ es) = budget

module _ (q : Queue) (buffer : List ℕ) (buflen : ℕ) (good : IsQueue q)
    (len : buflen ≤ length buffer) (small : q.size + buflen < u32) where
  -- A well-formed queue that holds the bytes `new` behind those of `q`, and the code `c`.
  abbrev pub Stores : List ℕ → Code → Code × Queue × ℕ → Type 0
  Stores new c r = IsQueue r.1 × (contents r.1.entries ≡ contents q.entries ++ new) × (r.0 ≡ c)

  store-Stores :
      (f : Filled) (new : List ℕ) (c : Code)
      → Holds f (contents q.entries) new c
      → length new ≤ buflen
      → Stores new c (store q f)
  store-Stores f new c h le = (
    record {
      entries = h.entries;
      counted = omega (
        arith,
        h.copied,
        good.counted,
        ap length h.bytes,
        length-append (contents q.entries) new,
      );
      attached = good.attached;
    },
    h.bytes,
    h.code,
  )

  add_entries-Stores :
      (budget : ℕ) (es : List Entry)
      → q.entries ≡ es
      → (0 < budget) ⊎ (es ≢ [])
      → Stores
          (pieces (spare budget es) buffer buflen (room es))
          (expected (spare budget es) buflen (room es))
          (add_entries budget buffer buflen q es)
  unfolding add_entries
  add_entries-Stores zero [] e (inl h) = absurd (omega arith)
  add_entries-Stores zero [] e (inr h) = absurd (h refl)
  add_entries-Stores (suc budget) [] e h = rw (budget_less budget) (
      store-Stores (add_loop budget buffer buflen fresh) _ _
        (subst
          (λ k.
            Holds (add_loop budget buffer buflen fresh) (contents k)
              (pieces budget buffer buflen capacity) (expected budget buflen capacity))
          (sym e) (empty_Holds budget))
        (length-pieces-le budget buffer buflen capacity))
    where
      budget_less : (b : ℕ) → suc b - 1 ≡ b
      budget_less b = omega arith

      empty_Holds :
          (b : ℕ)
          → Holds
              (add_loop b buffer buflen fresh)
              (contents [])
              (pieces b buffer buflen capacity)
              (expected b buflen capacity)
      empty_Holds b =
          subst
            (λ k.
              Holds (add_loop b buffer buflen fresh) k (pieces b buffer buflen capacity)
                (expected b buflen capacity))
            (sym contents-nil) (add_loop-Holds b buffer buflen fresh (omega arith, omega arith) len)
  add_entries-Stores budget (x ∷ xs) e h =
      store-Stores (add_to_tail budget buffer buflen x xs) _ _
        (subst
          (λ k.
            Holds (add_to_tail budget buffer buflen x xs) (contents k)
              (pieces budget buffer buflen (room (x ∷ xs)))
              (expected budget buflen (room (x ∷ xs))))
          (sym e)
          (add_to_tail-Holds budget buffer buflen x xs (subst (All IsEntry) e good.entries) len))
        (length-pieces-le budget buffer buflen (room (x ∷ xs)))

  -- Adding bytes of a buffer, at least one and no more than it has or `q_size` can count, to a
  -- well-formed queue, with memory for a first entry if it has none, gives a well-formed queue
  -- with the bytes of `pieces` behind the old ones. The code is 0 if the room in the last entry
  -- and in the entries that can be allocated is enough, and ENOMEM if not.
  pub siqueue_add-Stores :
      (budget : ℕ)
      → 0 < buflen
      → (0 < budget) ⊎ (q.entries ≢ [])
      → (r : Code × Queue × ℕ) × (siqueue_add budget q buffer buflen ≡ some r)
        × Stores
            (pieces (spare budget q.entries) buffer buflen (room q.entries))
            (expected (spare budget q.entries) buflen (room q.entries))
            r
  unfolding siqueue_add
  siqueue_add-Stores budget positive memory = (
    add_entries budget buffer buflen q q.entries,
    rw (ne→== buflen 0 (λ e. omega arith), good.attached) refl,
    add_entries-Stores budget q.entries refl memory,
  )

  -- Adding bytes of a buffer, at least one and no more than it has or `q_size` can count, that fit
  -- in the last entry of a well-formed queue, or in a first entry for which there is memory,
  -- returns 0 and puts these bytes behind the old ones in a well-formed queue.
  pub siqueue_add-append :
      (budget : ℕ)
      → 0 < buflen
      → (0 < budget) ⊎ (q.entries ≢ [])
      → buflen ≤ room q.entries
      → (r : Code × Queue × ℕ) × (siqueue_add budget q buffer buflen ≡ some r)
        × Stores (take buflen buffer) ok r
  siqueue_add-append budget positive memory fits =
      let (r, e, (g, b, c)) = siqueue_add-Stores budget positive memory in
      (
        r,
        e,
        (
          g,
          b
              ∙ ap (λ k. contents q.entries ++ k)
                  (pieces_fit (spare budget q.entries) (room q.entries) fits),
          c ∙ expected_fit (spare budget q.entries) (room q.entries) fits,
        ),
      )
    where
      pieces_fit : (b left : ℕ) → buflen ≤ left → pieces b buffer buflen left ≡ take buflen buffer
      pieces_fit b left h = pieces_one b buffer buflen left h

      expected_fit : (b left : ℕ) → buflen ≤ left → expected b buflen left ≡ ok
      expected_fit b left h = rw (le→leb buflen (left + b * capacity) (omega arith))

  -- Bytes of a buffer that do not fit in the last entry of a well-formed queue, or in its first
  -- one, but fit with one entry more, for which there is memory, are not appended as they are:
  -- what is copied to the next entry begins with the first bytes of the buffer again, where the
  -- bytes after the first `room` belong. No more bytes are added than the buffer has or `q_size`
  -- can count.
  pub siqueue_add-repeats :
      (budget : ℕ)
      → 0 < spare budget q.entries
      → (0 < budget) ⊎ (q.entries ≢ [])
      → room q.entries < buflen
      → buflen ≤ room q.entries + capacity
      → (r : Code × Queue × ℕ) × (siqueue_add budget q buffer buflen ≡ some r)
        × Stores (take (room q.entries) buffer ++ take (buflen - room q.entries) buffer) ok r
  siqueue_add-repeats budget more memory over two =
      let (r, e, (g, b, c)) = siqueue_add-Stores budget (omega arith) memory in
      (
        r,
        e,
        (
          g,
          b
              ∙ ap (λ k. contents q.entries ++ k)
                  (pieces_two (spare budget q.entries) buffer buflen (room q.entries) more over
                    two),
          c ∙ expected_two (spare budget q.entries) (room q.entries) more two,
        ),
      )
    where
      expected_two : (b left : ℕ) → 0 < b → buflen ≤ left + capacity → expected b buflen left ≡ ok
      expected_two b left p h = rw (le→leb buflen (left + b * capacity) (omega arith))
