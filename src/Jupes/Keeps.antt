-- ===== src/Jupes/Keeps.antt =====
-- _do_jupe and _do_jupes keep the list of jupes well-formed.
use efnet_services.Common.{
  ℕ, ◌≡◌, refl, sym, ap, fun_ext, ◌∙◌, subst, ◌≢◌, List, [], ◌∷◌, Bool, true, false, not, Option,
  none, some, if◌then◌else◌, All-zip, All-In, Avoids, In, Bool-cases, inl, inr, update, update_ne,
  update_self, update-All,
}
use efnet_services.Links.{Chain, add_to_list, set_next, set_prev}
use efnet_services.Links.Segment.{set_prev_if-next}
use efnet_services.Run.{Text}
use efnet_services.Jupes.{
  SVote, UVote, Jupes, Caller, World, Memory, Reply, einval, enomem, stuck, chain_of,
}
use efnet_services.Jupes.Votes.{find_svote, find_uvote, cast_vote}
use efnet_services.Jupes.Commands.{is_empty, new_jupe, link_jupe, vote_for, call_for}
use efnet_services.Jupes.Pruned.{Walk}
use efnet_services.Jupes.Sound.{IsSound}
use efnet_services.Jupes.Formed.{IsFormed}
use efnet_services.Jupes.Voted.{cast_vote-Forms}

module _ (world : World) where
  Walk-update :
      (next : ℕ → ℕ) (p v : ℕ) (xs : List ℕ) (q : ℕ)
      → Avoids p xs
      → Walk next xs q
      → Walk (update next p v) xs q
  Walk-update next p v [] q a w = w
  Walk-update next p v (x ∷ xs) q a (e, n, w) = (
    e,
    n,
    subst (Walk (update next p v) xs) (sym (update_ne next p v x (λ k. a.0 (sym k))))
        (Walk-update next p v xs (next x) a.1 w),
  )

  add_to_list-next :
      (p : ℕ) (c : Chain) → (add_to_list 0 p c).links.next ≡ update c.links.next p c.first
  unfolding add_to_list
  add_to_list-next p c = fun_ext (λ q.
      set_prev_if-next 0 (update c.links.next p c.first p) p
        (set_next p c.first (set_prev p 0 c.links)) q)

  add_to_list-first : (p : ℕ) (c : Chain) → (add_to_list 0 p c).first ≡ p
  unfolding add_to_list
  add_to_list-first p c = refl

  -- A result that is well-formed, where the loop has not run out of fuel.
  abbrev pub Forms : Reply × Jupes → Type 0
  Forms r = (r.0 ≢ stuck) × ((ks : List ℕ) × IsFormed world r.1 ks)

  -- The record for a new jupe is not NULL and none of the list, and it is no client.
  abbrev pub Unused : Option ℕ → Jupes → List ℕ → Type 0
  Unused none db js = Unit
  Unused (some p) db js = (p ≢ 0) × Avoids p js × (db.juped p ≡ false)

  new_jupe-IsSound : (tojupe reason : Text) → IsSound world.same_text (new_jupe world tojupe reason)
  new_jupe-IsSound tojupe reason = record {
    scored = refl;
    modest = tt;
    once = tt;
    elected = λ y. cc y;
    lasting = λ y. cc y;
  }

  module _ (db : Jupes) (js : List ℕ) (w : IsFormed world db js) where
    link_jupe-IsFormed :
        (p : ℕ) (tojupe reason : Text)
        → p ≢ 0
        → Avoids p js
        → db.juped p ≡ false
        → IsFormed world (link_jupe world p tojupe reason db) (p ∷ js)
    unfolding link_jupe
    link_jupe-IsFormed p tojupe reason n a free = record {
      walk =
          subst (λ g. Walk g (p ∷ js) (add_to_list 0 p (chain_of db)).first)
            (sym (add_to_list-next p (chain_of db)))
            (
              add_to_list-first p (chain_of db),
              n,
              subst (Walk (update db.links.next p db.first) js)
                  (sym (update_self db.links.next p db.first))
                  (Walk-update db.links.next p db.first js db.first a w.walk),
            );
      distinct = (a, w.distinct);
      sound = (
        subst (IsSound world.same_text) (sym (update_self db.jupe p (new_jupe world tojupe reason)))
            (new_jupe-IsSound tojupe reason),
        update-All (IsSound world.same_text) db.jupe p (new_jupe world tojupe reason) js
            (new_jupe-IsSound tojupe reason) w.sound,
      );
      clients = (
        free ∙ ap (λ k. k.active) (sym (update_self db.jupe p (new_jupe world tojupe reason))),
        All-zip (λ x. p ≢ x) (λ x. db.juped x ≡ (db.jupe x).active)
            (λ x. db.juped x ≡ (update db.jupe p (new_jupe world tojupe reason) x).active) js
            (λ x k e.
              e
              ∙ ap (λ j. j.active)
                  (sym (update_ne db.jupe p (new_jupe world tojupe reason) x (λ i. k (sym i)))))
            a w.clients,
      );
    }

    linked_jupe :
        (p : ℕ) (tojupe reason : Text)
        → (link_jupe world p tojupe reason db).jupe p ≡ new_jupe world tojupe reason
    unfolding link_jupe
    linked_jupe p tojupe reason = update_self db.jupe p (new_jupe world tojupe reason)

    none_svote : (server : Text) → find_svote world.same_text [] server ≡ none
    unfolding find_svote
    none_svote server = refl

    none_uvote : (userhost : Text) → find_uvote world.same_text [] userhost ≡ none
    unfolding find_uvote
    none_uvote userhost = refl

    pub call_for-Forms :
        (memory : Memory) (from : Caller) (tojupe reason : Text)
        → Unused memory.jupe db js
        → Forms (call_for world memory from tojupe reason db)
    unfolding call_for
    call_for-Forms memory from tojupe reason u = elim (Bool-cases (is_empty reason)) [
      | inl y ↦ rw (y, call_for) ((λ e. cc e), (js, w))
      | inr n ↦ rw (n, call_for) (go memory.jupe memory.strings u)
    ]
      where
        go :
            (r : Option ℕ) (t : Bool)
            → Unused r db js
            → Forms (elim r [
              | none ↦ (enomem, db)
              | some pos ↦
                  if not t
                  then (enomem, db)
                  else cast_vote world memory.vote from pos (link_jupe world pos tojupe reason db)
            ])
        go none t k = ((λ e. cc e), (js, w))
        go (some p) false k = ((λ e. cc e), (js, w))
        go (some p) true (n, a, free) =
            let here = linked_jupe p tojupe reason in
            let v =
              cast_vote-Forms world (link_jupe world p tojupe reason db) (p ∷ js)
                (link_jupe-IsFormed p tojupe reason n a free) p memory.vote from
                (subst (IsSound world.same_text) (sym here) (new_jupe-IsSound tojupe reason))
                (ap (λ j. j.active) here)
                (ap (λ j. find_svote world.same_text j.svotes from.server) here
                  ∙ none_svote from.server)
                (ap (λ j. find_uvote world.same_text j.svotes from.userhost) here
                  ∙ none_uvote from.userhost) in
            (v.0, (p ∷ js, v.1))

    pub vote_for-Forms :
        (memory : Memory) (from : Caller) (pos : ℕ)
        → In pos js
        → Forms (vote_for world memory from pos db)
    unfolding vote_for
    vote_for-Forms memory from pos here = elim (Bool-cases (db.jupe pos).active) [
      | inl y ↦ rw (y, vote_for) ((λ e. cc e), (js, w))
      | inr n ↦
          rw (n, vote_for)
            (go (find_uvote world.same_text (db.jupe pos).svotes from.userhost)
              (find_svote world.same_text (db.jupe pos).svotes from.server)
              (λ unvoted unheard.
                let v =
                  cast_vote-Forms world db js w pos memory.vote from
                    (All-In (λ x. IsSound world.same_text (db.jupe x)) pos js w.sound here) n
                    unheard unvoted in
                (v.0, (js, v.1)))
              refl refl)
    ]
      where
        go :
            (u : Option UVote) (v : Option SVote)
            → (find_uvote world.same_text (db.jupe pos).svotes from.userhost ≡ none
                → find_svote world.same_text (db.jupe pos).svotes from.server ≡ none
                → Forms (cast_vote world memory.vote from pos db))
            → find_uvote world.same_text (db.jupe pos).svotes from.userhost ≡ u
            → find_svote world.same_text (db.jupe pos).svotes from.server ≡ v
            → Forms (elim u [
              | some uv ↦ (einval, db)
              | none ↦ elim v [
                | some sv ↦ (einval, db)
                | none ↦ cast_vote world memory.vote from pos db
              ]
            ])
        go (some uv) v f i j = ((λ e. cc e), (js, w))
        go none (some sv) f i j = ((λ e. cc e), (js, w))
        go none none f i j = f i j
