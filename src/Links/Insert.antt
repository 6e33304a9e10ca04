-- ===== src/Links/Insert.antt =====
-- What the operations on a linked list do to the list that it stands for.
use efnet_services.Common.{
  ℕ, ◌≡◌, refl, sym, ap, ◌∙◌, subst, ◌≢◌, List, [], ◌∷◌, ◌++◌, ◌==◌, head_or, last_or, All, ap₂,
  head_or-All, All-append_left, All-append_right, Avoids, Distinct, last_or-Avoids, head_or-Avoids,
  Distinct-left, Distinct-right, Distinct-across, Distinct-remove, eq→==, ne→==, last_or-ne,
  head_or-ne, update_self, if◌then◌else◌,
}
use efnet_services.Links.{
  Links, Chain, set_prev, set_next, set_prev_if, set_next_if, add_to_list, del_from_list,
}
use efnet_services.Links.Segment.{
  Segment, Segment-append, Segment-left, Segment-right, Segment-set_prev, Segment-set_next,
  Segment-set_prev_if, Segment-set_next_if, Segment-retarget_start, Segment-retarget_end,
  Segment-Avoids, set_prev_if-prev_ne, set_prev_if-next,
}

module _ (nil : ℕ) where
  -- The list is well linked and stands for `xs`, which has no record twice.
  pub record Lists (c : Chain) (xs : List ℕ) : Type 0 where
    pub starts : c.first ≡ head_or nil xs
    pub linked : Segment nil c.links nil xs nil
    pub distinct : Distinct xs

  -- Two writes join two segments.
  pub Segment-join :
      (l : Links) (c d : ℕ) (xs ys : List ℕ)
      → Segment nil l nil xs c
      → Segment nil l d ys nil
      → Distinct (xs ++ ys)
      → let m = last_or nil xs in
        let q = head_or nil ys in
        Segment nil (set_prev_if nil q m (set_next_if nil m q l)) nil (xs ++ ys) nil
  Segment-join l c d xs ys hx hy u =
      let m = last_or nil xs in
      let q = head_or nil ys in
      let across = Distinct-across xs ys u in
      let left =
        Segment-set_prev_if nil _ nil q q m xs
          (head_or-Avoids nil xs ys (Segment-Avoids nil l nil c xs hx) across)
          (Segment-retarget_end nil l nil c q xs (Distinct-left xs ys u) hx) in
      let right = Segment-retarget_start nil _ d nil m ys (Distinct-right xs ys u) (
        Segment-set_next_if nil l d nil m q ys
          (last_or-Avoids nil xs ys (Segment-Avoids nil l d nil ys hy) across) hy) in
      Segment-append nil _ nil nil xs ys left right

  pub first-join :
      (f x : ℕ) (xs ys : List ℕ)
      → Avoids nil xs
      → f ≡ head_or nil (xs ++ x ∷ ys)
      → (if last_or nil xs == nil then head_or nil ys else f) ≡ head_or nil (xs ++ ys)
  first-join f x [] ys a h = rw (eq→== nil nil refl)
  first-join f x (y ∷ xs) ys a h =
      rw (ne→== (last_or y xs) nil (λ e. last_or-ne nil y xs a.0 a.1 (sym e))) h

  -- Deleting a record of a well linked list leaves a well linked list of the others, in the order
  -- that they had.
  pub del_from_list-Lists :
      (x : ℕ) (xs ys : List ℕ) (c : Chain)
      → Lists c (xs ++ x ∷ ys)
      → Lists (del_from_list nil x c) (xs ++ ys)
  unfolding del_from_list
  del_from_list-Lists x xs ys c h =
      let (a, p, q, hy) = Segment-right nil c.links nil nil xs (x ∷ ys) h.linked in
      let hx = Segment-left nil c.links nil nil xs (x ∷ ys) h.linked in
      let u = Distinct-remove x xs ys h.distinct in
      rw (p, q)
        (record {
          starts = first-join c.first x xs ys (Segment-Avoids nil c.links nil x xs hx) h.starts;
          linked = Segment-join c.links x x xs ys hx hy u;
          distinct = u;
        })

  -- Adding a record that is not yet on a well linked list, at a position that is not `nil`, gives a
  -- well linked list with the record first.
  pub add_to_list-Lists :
      (x : ℕ) (xs : List ℕ) (c : Chain)
      → x ≢ nil
      → Avoids x xs
      → Lists c xs
      → Lists (add_to_list nil x c) (x ∷ xs)
  unfolding add_to_list
  add_to_list-Lists x xs c n f h =
      let l = set_next x c.first (set_prev x nil c.links) in
      let q : l.next x ≡ head_or nil xs = update_self c.links.next x c.first ∙ h.starts in
      record {
        starts = refl;
        linked =
            subst (λ (m : Links). Segment nil m nil (x ∷ xs) nil)
              (sym (ap (λ (k : ℕ). set_prev_if nil k x l) q))
              (
                n,
                set_prev_if-prev_ne nil _ x l x (head_or-ne x nil xs n f)
                    ∙ update_self c.links.prev x nil,
                set_prev_if-next nil _ x l x ∙ q,
                Segment-retarget_start nil l nil nil x xs h.distinct (
                    Segment-set_next nil _ nil nil x c.first xs f
                      (Segment-set_prev nil c.links nil nil x nil xs f h.linked)),
              );
        distinct = (f, h.distinct);
      }

  -- A list of other records, that shares the links, stays as it is.
  pub add_to_list-Segment :
      (x b e : ℕ) (xs zs : List ℕ) (c : Chain)
      → Lists c xs
      → Avoids nil zs
      → All (λ z. Avoids z zs) (x ∷ xs)
      → Segment nil c.links b zs e
      → Segment nil (add_to_list nil x c).links b zs e
  unfolding add_to_list
  add_to_list-Segment x b e xs zs c h n (fx, f) g =
      let l = set_next x c.first (set_prev x nil c.links) in
      let q : l.next x ≡ head_or nil xs = update_self c.links.next x c.first ∙ h.starts in
      subst (λ (m : Links). Segment nil m b zs e) (sym (ap (λ (k : ℕ). set_prev_if nil k x l) q))
        (Segment-set_prev_if nil l b e (head_or nil xs) x zs (head_or-All nil zs xs n f) (
          Segment-set_next nil _ b e x c.first zs fx
            (Segment-set_prev nil c.links b e x nil zs fx g)))

  pub del_from_list-Segment :
      (x b e : ℕ) (xs ys zs : List ℕ) (c : Chain)
      → Lists c (xs ++ x ∷ ys)
      → Avoids nil zs
      → All (λ z. Avoids z zs) (xs ++ x ∷ ys)
      → Segment nil c.links b zs e
      → Segment nil (del_from_list nil x c).links b zs e
  unfolding del_from_list
  del_from_list-Segment x b e xs ys zs c h n f g =
      let (a, p, q, hy) = Segment-right nil c.links nil nil xs (x ∷ ys) h.linked in
      let fx = All-append_left (λ z. Avoids z zs) xs (x ∷ ys) f in
      let fy = (All-append_right (λ z. Avoids z zs) xs (x ∷ ys) f).1 in
      subst (λ (m : Links). Segment nil m b zs e)
        (ap₂ (λ (j k : ℕ). set_prev_if nil k j (set_next_if nil j k c.links)) (sym p) (sym q))
        (Segment-set_prev_if nil _ b e (head_or nil ys) (last_or nil xs) zs
          (head_or-All nil zs ys n fy)
          (Segment-set_next_if nil c.links b e (last_or nil xs) (head_or nil ys) zs
            (last_or-Avoids nil xs zs n fx) g))
