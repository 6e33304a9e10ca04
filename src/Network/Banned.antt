-- ===== src/Network/Banned.antt =====
-- The lists of bans of daemon/hash.c when a ban is added and when bans are removed.
use efnet_services.Common.{
  ℕ, ◌≡◌, refl, sym, ap, subst, ◌≢◌, inl, inr, ◌<◌, List, [], ◌∷◌, ◌++◌, ◌==◌, Bool, false, Option,
  length, length-append, All, All-zip, All-remove, Avoids, update, Bool-cases, eq→==, ne→==, arith,
}
use efnet_services.Links.{add_to_list, del_from_list}
use efnet_services.Links.Family.{Family, add_to_list-Family, del_from_list-Family}
use efnet_services.Run.{Text, npos}
use efnet_services.Network.{Bans}
use efnet_services.Network.Joined.{dec_position, update-Replaced, Counts}
use efnet_services.Network.BanList.{bans_of, link_ban, unlink_ban}

module _ (same : Text → Text → Bool) where
  -- No ban of the list has the string of a later one.
  abbrev pub Unlike : (ℕ → Text) → List ℕ → Type 0
  Unlike s [] = Unit
  Unlike s (p ∷ ps) = All (λ q. same (s q) (s p) ≡ false) ps × Unlike s ps

  Unlike-remove :
      (s : ℕ → Text) (p : ℕ) (us vs : List ℕ) → Unlike s (us ++ p ∷ vs) → Unlike s (us ++ vs)
  Unlike-remove s p [] vs h = h.1
  Unlike-remove s p (u ∷ us) vs h =
      (All-remove (λ q. same (s q) (s u) ≡ false) p us vs h.0, Unlike-remove s p us vs h.1)

  Unlike-update :
      (s : ℕ → Text) (p : ℕ) (v : Text) (ps : List ℕ)
      → Avoids p ps
      → Unlike s ps
      → Unlike (update s p v) ps
  Unlike-update s p v [] a h = tt
  Unlike-update s p v (q ∷ ps) a h = (
    rw (ne→== q p (λ e. a.0 (sym e))) (
        All-zip (λ r. p ≢ r) (λ r. same (s r) (s q) ≡ false)
          (λ r. same (update s p v r) (s q) ≡ false) ps (λ r n e. rw (ne→== r p (λ k. n (sym k))) e)
          a.1 h.0),
    Unlike-update s p v ps a.1 h.1,
  )

  -- `of ch` are the bans of a channel: well linked, each on one list, counted, and of different strings.
  pub record Banned (b : Bans) (of : ℕ → List ℕ) : Type 0 where
    pub lists : Family 0 dec_position b.bans b.ban_links of
    pub numbans : (ch : ℕ) → Counts (b.numbans ch) (length (of ch))
    pub unlike : (ch : ℕ) → Unlike b.b_string (of ch)

  module _ (b : Bans) (of : ℕ → List ℕ) (banned : Banned b of) (ch p : ℕ) where
    pub link_ban-Banned :
        (string : Text) (who : Option Text) (now : ℕ)
        → p ≢ 0
        → ((k : ℕ) → Avoids p (of k))
        → b.numbans ch < npos
        → All (λ q. same (b.b_string q) string ≡ false) (of ch)
        → Banned (link_ban p ch string who now b) (update of ch (p ∷ of ch))
    unfolding link_ban
    link_ban-Banned string who now proper fresh room none_like = record {
      lists =
          add_to_list-Family 0 dec_position b.bans
            (update b.bans ch (add_to_list 0 p (bans_of ch b)).first) b.ban_links of
            (update of ch (p ∷ of ch)) ch banned.lists p proper fresh
            (update-Replaced b.bans ch (add_to_list 0 p (bans_of ch b)).first)
            (update-Replaced of ch (p ∷ of ch));
      numbans = λ k. elim (Bool-cases (k == ch)) [
        | inl e ↦ rw e (omega (arith, banned.numbans ch), omega (arith, banned.numbans ch))
        | inr n ↦ rw n (banned.numbans k)
      ];
      unlike = λ k. elim (Bool-cases (k == ch)) [
        | inl e ↦
            rw (e, eq→== p p refl)
              (
                All-zip (λ r. p ≢ r) (λ r. same (b.b_string r) string ≡ false)
                    (λ r. same (update b.b_string p string r) string ≡ false) (of ch)
                    (λ r n f. rw (ne→== r p (λ k. n (sym k))) f) (fresh ch) none_like,
                Unlike-update b.b_string p string (of ch) (fresh ch) (banned.unlike ch),
              )
        | inr n ↦ rw n (Unlike-update b.b_string p string (of k) (fresh k) (banned.unlike k))
      ];
    }

    pub unlink_ban-Banned :
        (us vs : List ℕ)
        → of ch ≡ us ++ p ∷ vs
        → Banned (unlink_ban p ch b) (update of ch (us ++ vs))
    unfolding unlink_ban
    unlink_ban-Banned us vs here = record {
      lists =
          del_from_list-Family 0 dec_position b.bans
            (update b.bans ch (del_from_list 0 p (bans_of ch b)).first) b.ban_links of
            (update of ch (us ++ vs)) ch banned.lists p us vs here
            (update-Replaced b.bans ch (del_from_list 0 p (bans_of ch b)).first)
            (update-Replaced of ch (us ++ vs));
      numbans = λ k. elim (Bool-cases (k == ch)) [
        | inl e ↦ rw e (
          omega (
            arith,
            banned.numbans ch,
            ap length here,
            length-append us vs,
            length-append us (p ∷ vs),
          ),
          omega (arith, banned.numbans ch),
        )
        | inr n ↦ rw n (banned.numbans k)
      ];
      unlike = λ k. elim (Bool-cases (k == ch)) [
        | inl e ↦
            rw e
              (Unlike-remove b.b_string p us vs (subst (Unlike b.b_string) here (banned.unlike ch)))
        | inr n ↦ rw n (banned.unlike k)
      ];
    }
