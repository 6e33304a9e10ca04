-- ===== src/Jupes/Voted.antt =====
-- A vote keeps the list of jupes well-formed.
use efnet_services.Common.{
  ℕ, ◌≡◌, refl, sym, ap, ◌∙◌, subst, ◌≢◌, List, Bool, true, false, leb, Option, none, some, All-map,
  Bool-cases, inl, inr, ◌==◌, update, update_self, ==→eq, leb→le, update-All, ◌≤◌,
}
use efnet_services.Jupes.{Jupe, Jupes, Caller, World, stuck, write_jupe}
use efnet_services.Jupes.Votes.{find_svote, find_uvote, with_vote, activated, activate, cast_vote}
use efnet_services.Jupes.Sound.{IsSound, find_svote-Unheard, find_uvote-Unvoted, with_vote-IsSound}
use efnet_services.Jupes.Formed.{IsFormed}

with_vote-active : (from : Caller) (j : Jupe) → (with_vote from j).active ≡ j.active
unfolding with_vote
with_vote-active from j = refl

module _ (world : World) where
  module _ (db : Jupes) (js : List ℕ) (w : IsFormed world db js) (pos : ℕ) where
    write_jupe-IsFormed :
        (v : Jupe)
        → IsSound world.same_text v
        → v.active ≡ (db.jupe pos).active
        → IsFormed world (write_jupe pos v db) js
    write_jupe-IsFormed v s e = record {
      walk = w.walk;
      distinct = w.distinct;
      sound = update-All (IsSound world.same_text) db.jupe pos v js s w.sound;
      clients =
          All-map (λ x. db.juped x ≡ (db.jupe x).active)
            (λ x. db.juped x ≡ (update db.jupe pos v x).active) js
            (λ x i. elim (Bool-cases (x == pos)) [
              | inl y ↦ rw y (i ∙ ap (λ k. (db.jupe k).active) (==→eq x pos y) ∙ sym e)
              | inr n ↦ rw n i
            ])
            w.clients;
    }

    activated-IsFormed :
        IsSound world.same_text (db.jupe pos)
        → 15 ≤ (db.jupe pos).score
        → IsFormed world (activated pos db) js
    activated-IsFormed s enough = record {
      walk = w.walk;
      distinct = w.distinct;
      sound =
          update-All (IsSound world.same_text) db.jupe pos
            (record (db.jupe pos) { active = true; expires = 0 }) js
            (record {
              scored = s.scored;
              modest = s.modest;
              once = s.once;
              elected = λ y. enough;
              lasting = λ y. refl;
            })
            w.sound;
      clients =
          All-map (λ x. db.juped x ≡ (db.jupe x).active)
            (λ x. (activated pos db).juped x ≡ ((activated pos db).jupe x).active) js
            (λ x i. elim (Bool-cases (x == pos)) [ inl y ↦ rw y refl | inr n ↦ rw n i ]) w.clients;
    }

    activate-IsFormed :
        IsSound world.same_text (db.jupe pos)
        → 15 ≤ (db.jupe pos).score
        → IsFormed world (activate world pos db) js
    unfolding activate
    activate-IsFormed s enough = go (world.add_client (db.jupe pos).name)
      where
        go : (r : Option ℕ) → IsFormed world (elim r [ some e ↦ db | none ↦ activated pos db ]) js
        go (some n) = w
        go none = activated-IsFormed s enough

  module _ (db : Jupes) (js : List ℕ) (w : IsFormed world db js) (pos : ℕ) where
    pub cast_vote-Forms :
        (memory : Bool) (from : Caller)
        → IsSound world.same_text (db.jupe pos)
        → (db.jupe pos).active ≡ false
        → find_svote world.same_text (db.jupe pos).svotes from.server ≡ none
        → find_uvote world.same_text (db.jupe pos).svotes from.userhost ≡ none
        → ((cast_vote world memory from pos db).0 ≢ stuck)
          × IsFormed world (cast_vote world memory from pos db).1 js
    unfolding cast_vote
    cast_vote-Forms false from s n unheard unvoted = (
      λ e. cc (e),
      write_jupe-IsFormed db js w pos (record (db.jupe pos) { last_heard = world.now })
          (record {
            scored = s.scored;
            modest = s.modest;
            once = s.once;
            elected = s.elected;
            lasting = s.lasting;
          })
          refl,
    )
    cast_vote-Forms true from s n unheard unvoted =
        elim (Bool-cases (leb 15 (with_vote from heard).score)) [
          | inl y ↦ rw y (
            (λ e. cc (e)),
            activate-IsFormed (write_jupe pos (with_vote from heard) db) js voted pos
                (subst (IsSound world.same_text)
                  (sym (update_self db.jupe pos (with_vote from heard))) sound)
                (subst (λ k. 15 ≤ k.score) (sym (update_self db.jupe pos (with_vote from heard)))
                  (leb→le 15 (with_vote from heard).score y)),
          )
          | inr k ↦ rw k ((λ e. cc (e)), voted)
        ]
      where
        heard : Jupe
        heard = record (db.jupe pos) { last_heard = world.now }

        sound : IsSound world.same_text (with_vote from heard)
        sound =
            with_vote-IsSound world.same_text from heard n
              (find_svote-Unheard world.same_text heard.svotes from.server unheard)
              (find_uvote-Unvoted world.same_text heard.svotes from.userhost unvoted)
              (record {
                scored = s.scored;
                modest = s.modest;
                once = s.once;
                elected = s.elected;
                lasting = s.lasting;
              })

        voted : IsFormed world (write_jupe pos (with_vote from heard) db) js
        voted =
            write_jupe-IsFormed db js w pos (with_vote from heard) sound
              (with_vote-active from heard)
