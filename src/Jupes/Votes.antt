-- ===== src/Jupes/Votes.antt =====
-- The votes on a jupe: _jupe_find_svote, _jupe_find_uvote and the end of _do_jupe.
use efnet_services.Common.{
  ℕ, Bool, true, not, Option, none, some, List, [], ◌∷◌, leb, if◌then◌else◌, update,
}
use efnet_services.Run.{Text, add32}
use efnet_services.Jupes.{
  Jupe, Jupes, SVote, UVote, Caller, World, Reply, ok, enomem, score_admin, score_oper,
  score_needed, write_jupe,
}

module _ (same : Text → Text → Bool) where
  -- _jupe_find_svote
  unfoldable pub find_svote : List SVote → Text → Option SVote
  find_svote [] sname = none
  find_svote (sv ∷ svs) sname =
      let rest = find_svote svs sname in if same sv.server sname then some sv else rest

  -- The inner loop of _jupe_find_uvote
  unfoldable pub find_among : List UVote → Text → Option UVote
  find_among [] userhost = none
  find_among (uv ∷ uvs) userhost =
      let rest = find_among uvs userhost in if same uv.userhost userhost then some uv else rest

  -- _jupe_find_uvote
  unfoldable pub find_uvote : List SVote → Text → Option UVote
  find_uvote [] userhost = none
  find_uvote (sv ∷ svs) userhost =
      let rest = find_uvote svs userhost in
      elim (find_among sv.uvotes userhost) [ some uv ↦ some uv | none ↦ rest ]

-- The weight of a vote.
abbrev pub weight : Caller → ℕ
weight from = if from.authed then score_admin else score_oper

abbrev pub vote_of : Caller → SVote
vote_of from = record {
  server = from.server;
  uvotes = record { nick = from.nick; userhost = from.userhost; score = weight from } ∷ [];
}

-- A jupe with one vote more.
unfoldable pub with_vote : Caller → Jupe → Jupe
with_vote from j = record j {
  svotes = vote_of from ∷ j.svotes;
  score = add32 j.score (weight from);
}

-- The jupe has its client, and stays.
abbrev pub activated : ℕ → Jupes → Jupes
activated pos db =
    record (write_jupe pos (record (db.jupe pos) { active = true; expires = 0 }) db) {
      juped = update db.juped pos true;
    }

-- The part of _do_jupe for a jupe with the score that is needed
unfoldable pub activate : World → ℕ → Jupes → Jupes
activate world pos db = elim (world.add_client (db.jupe pos).name) [
  | some e ↦ db
  | none ↦ activated pos db
]

-- The end of _do_jupe, from the write of `j_last_heard` on.
unfoldable pub cast_vote : World → Bool → Caller → ℕ → Jupes → Reply × Jupes
cast_vote world memory from pos db =
    let heard : Jupe = record (db.jupe pos) { last_heard = world.now } in
    let voted = write_jupe pos (with_vote from heard) db in
    if not memory
    then (enomem, write_jupe pos heard db)
    else if leb score_needed (with_vote from heard).score
    then (ok, activate world pos voted)
    else (ok, voted)
