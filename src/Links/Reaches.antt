-- ===== src/Links/Reaches.antt =====
-- The records that can be reached along the links from a position.
use efnet_services.Common.{
  ℕ, ◌≡◌, sym, ap, ◌∙◌, subst, ◌≢◌, inl, inr, List, [], ◌∷◌, head_or, Avoids, In,
}
use efnet_services.Links.{Links}
use efnet_services.Links.Segment.{Segment}

-- From a record that is not `nil` the next one can be reached.
pub data Reaches (nil : ℕ) (l : Links) (x : ℕ) : ℕ → Type 0 where
  here : (a : ℕ) → a ≡ x → Reaches nil l x a
  there : (a : ℕ) → a ≢ nil → Reaches nil l x (l.next a) → Reaches nil l x a

module _ (nil : ℕ) (l : Links) (x : ℕ) where
  -- A list holds the records that its first one reaches, and no others.
  pub unreached-Avoids :
      (b : ℕ) (xs : List ℕ)
      → (Reaches nil l x (head_or nil xs) → ⊥)
      → Segment nil l b xs nil
      → Avoids x xs
  unreached-Avoids b [] no_way h = tt
  unreached-Avoids b (z ∷ xs) no_way (proper, p, q, h) = (
    λ e. no_way (here z (sym e)),
    unreached-Avoids z xs (λ r. no_way (there z proper (subst (Reaches nil l x) (sym q) r))) h,
  )

  pub reached-In :
      (b a : ℕ) (xs : List ℕ)
      → x ≢ nil
      → a ≡ head_or nil xs
      → Segment nil l b xs nil
      → Reaches nil l x a
      → In x xs
  reached-In b a [] n e h (here k f) = absurd (n (sym f ∙ e))
  reached-In b a [] n e h (there k m r) = absurd (m e)
  reached-In b a (z ∷ xs) n e h (here k f) = inl (sym f ∙ e)
  reached-In b a (z ∷ xs) n e (proper, p, q, h) (there k m r) =
      inr (reached-In z (l.next a) xs n (ap l.next e ∙ q) h r)

  -- From `nil` no other record can be reached.
  pub Reaches-nil : x ≢ nil → (a : ℕ) → a ≡ nil → Reaches nil l x a → ⊥
  Reaches-nil n a e (here k f) = n (sym f ∙ e)
  Reaches-nil n a e (there k m r) = m e
