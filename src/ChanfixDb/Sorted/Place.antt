-- ===== src/ChanfixDb/Sorted/Place.antt =====
-- A list with two ends: what taking a record out and putting one in do to it.
use efnet_services.Common.{
  ℕ, ◌≡◌, refl, sym, ap, subst, ◌∙◌, ◌≢◌, List, [], ◌∷◌, ◌++◌, ◌==◌, if◌then◌else◌, head_or,
  last_or, Avoids, Distinct, Distinct-left, Distinct-right, Distinct-across, Distinct-remove,
  Distinct-insert, eq→==, ne→==, last_or-ne, head_or-ne, last_or-Avoids, head_or-Avoids, append-nil,
  last_or-append, update_self, Bool-cases, inl, inr, All-append_left, All-append_right,
}
use efnet_services.Links.{Links, Ends, set_prev, set_next, set_prev_if, set_next_if}
use efnet_services.Links.Segment.{
  Segment, Segment-append, Segment-left, Segment-right, Segment-set_prev, Segment-set_next,
  Segment-set_prev_if, Segment-set_next_if, Segment-retarget_start, Segment-retarget_end,
  Segment-Avoids, set_prev_if-prev_ne, set_prev_if-next, set_next_if-prev, set_next_if-next_ne,
}
use efnet_services.Links.Insert.{Segment-join, first-join}
use efnet_services.ChanfixDb.Sorted.{
  take_out, put_last, put_first, put_before, put_after, move_forward, move_backward,
}

module _ (nil : ℕ) where
  -- The ends and the links stand for the list `xs`.
  pub record Holds (e : Ends) (xs : List ℕ) : Type 0 where
    pub starts : e.first ≡ head_or nil xs
    pub stops : e.last ≡ last_or nil xs
    pub linked : Segment nil e.links nil xs nil
    pub distinct : Distinct xs

  last-join :
      (z x : ℕ) (xs ys : List ℕ)
      → Avoids nil ys
      → z ≡ last_or nil (xs ++ x ∷ ys)
      → (if head_or nil ys == nil then last_or nil xs else z) ≡ last_or nil (xs ++ ys)
  last-join z x xs [] a h = rw (eq→== nil nil refl, append-nil xs) refl
  last-join z x xs (y ∷ ys) a h =
      rw (ne→== y nil (λ e. a.0 (sym e)), h, last_or-append nil xs (x ∷ y ∷ ys))
        (sym (last_or-append nil xs (y ∷ ys)))

  pub take_out-Holds :
      (x : ℕ) (xs ys : List ℕ) (e : Ends)
      → Holds e (xs ++ x ∷ ys)
      → Holds (take_out nil x e) (xs ++ ys)
  unfolding take_out
  take_out-Holds x xs ys e h =
      let (a, p, q, hy) = Segment-right nil e.links nil nil xs (x ∷ ys) h.linked in
      let hx = Segment-left nil e.links nil nil xs (x ∷ ys) h.linked in
      let u = Distinct-remove x xs ys h.distinct in
      rw (p, q)
        (record {
          starts = first-join nil e.first x xs ys (Segment-Avoids nil e.links nil x xs hx) h.starts;
          stops = last-join e.last x xs ys (Segment-Avoids nil e.links x nil ys hy) h.stops;
          linked = Segment-join nil e.links x x xs ys hx hy u;
          distinct = u;
        })

  -- The writes that put `x` between two neighbours.
  abbrev pub between : ℕ → ℕ → ℕ → Ends → Ends
  between m q x e = record {
    first = if m == nil then x else e.first;
    last = if q == nil then x else e.last;
    links = set_prev_if nil q x (set_next_if nil m x (set_next x q (set_prev x m e.links)));
  }

  first-between :
      (f x : ℕ) (xs ys : List ℕ)
      → Avoids nil xs
      → f ≡ head_or nil (xs ++ ys)
      → (if last_or nil xs == nil then x else f) ≡ head_or nil (xs ++ x ∷ ys)
  first-between f x [] ys a h = rw (eq→== nil nil refl) refl
  first-between f x (y ∷ xs) ys a h =
      rw (ne→== (last_or y xs) nil (λ e. last_or-ne nil y xs a.0 a.1 (sym e))) h

  last-between :
      (z x : ℕ) (xs ys : List ℕ)
      → Avoids nil ys
      → z ≡ last_or nil (xs ++ ys)
      → (if head_or nil ys == nil then x else z) ≡ last_or nil (xs ++ x ∷ ys)
  last-between z x xs [] a h = rw (eq→== nil nil refl) (sym (last_or-append nil xs (x ∷ [])))
  last-between z x xs (y ∷ ys) a h =
      rw (ne→== y nil (λ e. a.0 (sym e)), h, last_or-append nil xs (x ∷ y ∷ ys))
        (last_or-append nil xs (y ∷ ys))

  pub between-Holds :
      (x : ℕ) (xs ys : List ℕ) (e : Ends)
      → x ≢ nil
      → Avoids x (xs ++ ys)
      → Holds e (xs ++ ys)
      → Holds (between (last_or nil xs) (head_or nil ys) x e) (xs ++ x ∷ ys)
  between-Holds x xs ys e n f h =
      let m = last_or nil xs in
      let q = head_or nil ys in
      let hx = Segment-left nil e.links nil nil xs ys h.linked in
      let hy = Segment-right nil e.links nil nil xs ys h.linked in
      let l = set_next x q (set_prev x m e.links) in
      let fx = All-append_left (λ y. x ≢ y) xs ys f in
      let fy = All-append_right (λ y. x ≢ y) xs ys f in
      let ax = Segment-Avoids nil e.links nil q xs hx in
      let ay = Segment-Avoids nil e.links m nil ys hy in
      let across = Distinct-across xs ys h.distinct in
      let kx = Segment-set_next nil _ nil q x q xs fx (Segment-set_prev nil _ nil q x m xs fx hx) in
      let ky = Segment-set_next nil _ m nil x q ys fy (Segment-set_prev nil _ m nil x m ys fy hy) in
      let left =
        Segment-set_prev_if nil _ nil x q x xs (head_or-Avoids nil xs ys ax across)
          (Segment-retarget_end nil l nil q x xs (Distinct-left xs ys h.distinct) kx) in
      let right =
        Segment-retarget_start nil _ m nil x ys (Distinct-right xs ys h.distinct)
          (Segment-set_next_if nil l m nil m x ys (last_or-Avoids nil xs ys ay across) ky) in
      record {
        starts = first-between e.first x xs ys ax h.starts;
        stops = last-between e.last x xs ys ay h.stops;
        linked = Segment-append nil _ nil nil xs (x ∷ ys) left (
          n,
          set_prev_if-prev_ne nil q x (set_next_if nil m x l) x (head_or-ne x nil ys n fy)
              ∙ set_next_if-prev nil m x l x
              ∙ update_self e.links.prev x m,
          set_prev_if-next nil q x (set_next_if nil m x l) x
              ∙ set_next_if-next_ne nil m x l x (last_or-ne x nil xs n fx)
              ∙ update_self e.links.next x q,
          right,
        );
        distinct = Distinct-insert x xs ys f h.distinct;
      }

  put_last-between : (x : ℕ) (e : Ends) → put_last nil x e ≡ between e.last nil x e
  unfolding put_last set_prev_if
  put_last-between x e = rw (eq→== nil nil refl) refl

  put_first-between : (x : ℕ) (e : Ends) → put_first nil x e ≡ between nil e.first x e
  unfolding put_first set_next_if
  put_first-between x e = rw (eq→== nil nil refl) refl

  put_before-between :
      (cu x : ℕ) (e : Ends) → cu ≢ nil → put_before nil cu x e ≡ between (e.links.prev cu) cu x e
  unfolding put_before set_prev_if
  put_before-between cu x e n = rw (ne→== cu nil n) refl

  put_after-between :
      (cu x : ℕ) (e : Ends) → cu ≢ nil → put_after nil cu x e ≡ between cu (e.links.next cu) x e
  unfolding put_after set_next_if
  put_after-between cu x e n =
      rw (ne→== cu nil n)
        (elim (Bool-cases (e.links.next cu == nil)) [ inl y ↦ rw y refl | inr z ↦ rw z refl ])

  -- The record after the last one.
  pub Segment-next_last :
      (l : Links) (b e y : ℕ) (xs : List ℕ) → Segment nil l b (y ∷ xs) e → l.next (last_or y xs) ≡ e
  Segment-next_last l b e y [] (a, p, q, h) = q
  Segment-next_last l b e y (x ∷ xs) (a, p, q, h) = Segment-next_last l y e x xs h

  -- A search that ended before `ys` places the record before them, and one that ended after `xs`
  -- after them.
  pub move_forward-Holds :
      (x : ℕ) (xs ys : List ℕ) (e : Ends)
      → x ≢ nil
      → Avoids x (xs ++ ys)
      → Holds e (xs ++ ys)
      → Holds (move_forward nil x e (head_or nil ys)) (xs ++ x ∷ ys)
  unfolding move_forward
  move_forward-Holds x xs [] e n f h =
      let m : e.last ≡ last_or nil xs = h.stops ∙ last_or-append nil xs [] in
      rw (eq→== nil nil refl) (
        subst (λ k. Holds k (xs ++ x ∷ []))
          (sym (put_last-between x e ∙ ap (λ (k : ℕ). between k nil x e) m))
          (between-Holds x xs [] e n f h))
  move_forward-Holds x xs (c ∷ ys) e n f h =
      let (a, p, q, t) = Segment-right nil e.links nil nil xs (c ∷ ys) h.linked in
      rw (ne→== c nil a) (
        subst (λ k. Holds k (xs ++ x ∷ c ∷ ys))
          (sym (put_before-between c x e a ∙ ap (λ (k : ℕ). between k c x e) p))
          (between-Holds x xs (c ∷ ys) e n f h))

  pub move_backward-Holds :
      (x : ℕ) (xs ys : List ℕ) (e : Ends)
      → x ≢ nil
      → Avoids x (xs ++ ys)
      → Holds e (xs ++ ys)
      → Holds (move_backward nil x e (last_or nil xs)) (xs ++ x ∷ ys)
  unfolding move_backward
  move_backward-Holds x [] ys e n f h = rw (eq→== nil nil refl) (
      subst (λ k. Holds k (x ∷ ys))
        (sym (put_first-between x e ∙ ap (λ (k : ℕ). between nil k x e) h.starts))
        (between-Holds x [] ys e n f h))
  move_backward-Holds x (y ∷ xs) ys e n f h =
      let hx = Segment-left nil e.links nil nil (y ∷ xs) ys h.linked in
      let m = last_or y xs in
      let k : head_or nil ys ≡ e.links.next m =
        sym (Segment-next_last e.links nil (head_or nil ys) y xs hx) in
      let a = Segment-Avoids nil e.links nil _ (y ∷ xs) hx in
      let b : m ≢ nil = λ i. last_or-ne nil y xs a.0 a.1 (sym i) in
      rw (ne→== m nil b) (
        subst (λ k. Holds k (y ∷ (xs ++ x ∷ ys)))
          (sym (put_after-between m x e b ∙ ap (λ (k : ℕ). between m k x e) (sym k)))
          (between-Holds x (y ∷ xs) ys e n f h))
