-- ===== src/Jupes/Sound.antt =====
-- What holds of a jupe and its votes, and that a vote keeps it.
use efnet_services.Common.{
  ℕ, ◌≡◌, refl, ◌≤◌, ◌+◌, ◌%◌, Option, List, [], ◌∷◌, Bool, true, false, none, some, All,
  Bool-cases, inl, inr, arith,
}
use efnet_services.Run.{Text, u32}
use efnet_services.Jupes.{Jupe, SVote, UVote, Caller}
use efnet_services.Jupes.Votes.{find_svote, find_among, find_uvote, weight, with_vote}

-- The sum of the scores of votes.
abbrev pub uvotes_score : List UVote → ℕ
uvotes_score [] = 0
uvotes_score (uv ∷ uvs) = uv.score + uvotes_score uvs

abbrev pub svotes_score : List SVote → ℕ
svotes_score [] = 0
svotes_score (sv ∷ svs) = uvotes_score sv.uvotes + svotes_score svs

module _ (same : Text → Text → Bool) where
  -- No vote is of a server, or of a user, of that name.
  abbrev pub Unheard : List SVote → Text → Type 0
  Unheard svs server = All (λ sv. same sv.server server ≡ false) svs

  abbrev pub Unvoted : List SVote → Text → Type 0
  Unvoted svs userhost = All (λ sv. All (λ uv. same uv.userhost userhost ≡ false) sv.uvotes) svs

  -- Each server votes once, and each user.
  abbrev pub Once : List SVote → Type 0
  Once [] = Unit
  Once (sv ∷ svs) = Unheard svs sv.server × All (λ uv. Unvoted svs uv.userhost) sv.uvotes × Once svs

  pub find_svote-Unheard :
      (svs : List SVote) (server : Text) → find_svote same svs server ≡ none → Unheard svs server
  unfolding find_svote
  find_svote-Unheard [] server h = tt
  find_svote-Unheard (sv ∷ svs) server h = elim (Bool-cases (same sv.server server)) [
    | inl y ↦ absurd (cc (y, h))
    | inr n ↦ (n, find_svote-Unheard svs server (cc (n, h)))
  ]

  find_among-none :
      (uvs : List UVote) (userhost : Text)
      → find_among same uvs userhost ≡ none
      → All (λ uv. same uv.userhost userhost ≡ false) uvs
  unfolding find_among
  find_among-none [] userhost h = tt
  find_among-none (uv ∷ uvs) userhost h = elim (Bool-cases (same uv.userhost userhost)) [
    | inl y ↦ absurd (cc (y, h))
    | inr n ↦ (n, find_among-none uvs userhost (cc (n, h)))
  ]

  pub find_uvote-Unvoted :
      (svs : List SVote) (userhost : Text)
      → find_uvote same svs userhost ≡ none
      → Unvoted svs userhost
  unfolding find_uvote
  find_uvote-Unvoted [] userhost h = tt
  find_uvote-Unvoted (sv ∷ svs) userhost h =
      go (find_among same sv.uvotes userhost) refl (find_uvote-Unvoted svs userhost)
    where
      go :
          (r : Option UVote)
          → find_among same sv.uvotes userhost ≡ r
          → (find_uvote same svs userhost ≡ none → Unvoted svs userhost)
          → Unvoted (sv ∷ svs) userhost
      go none e rest = (find_among-none sv.uvotes userhost e, rest (cc (e, h)))
      go (some uv) e rest = absurd (cc (e, h))

  -- What holds of a jupe: its score is that of its votes, no vote has more than that of an
  -- administrator, each server and each user votes once, and a jupe that is active has the score that
  -- is needed and does not expire.
  pub record IsSound (j : Jupe) : Type 0 where
    pub scored : j.score ≡ svotes_score j.svotes % u32
    pub modest : All (λ sv. uvotes_score sv.uvotes ≤ 5) j.svotes
    pub once : Once j.svotes
    pub elected : j.active ≡ true → 15 ≤ j.score
    pub lasting : j.active ≡ true → j.expires ≡ 0

  weight-modest : (from : Caller) → weight from + 0 ≤ 5
  weight-modest from = elim (Bool-cases from.authed) [
    | inl y ↦ rw y (omega arith)
    | inr n ↦ rw n (omega arith)
  ]

  -- A vote for a jupe that is not active.
  pub with_vote-IsSound :
      (from : Caller) (j : Jupe)
      → j.active ≡ false
      → Unheard j.svotes from.server
      → Unvoted j.svotes from.userhost
      → IsSound j
      → IsSound (with_vote from j)
  unfolding with_vote
  with_vote-IsSound from j n unheard unvoted s = record {
    scored = omega (arith, s.scored);
    modest = (weight-modest from, s.modest);
    once = (unheard, (unvoted, tt), s.once);
    elected = λ y. absurd (cc (y, n));
    lasting = λ y. absurd (cc (y, n));
  }
