-- ===== src/Jupes/Whole.antt =====
-- _do_jupe and _do_jupes as a whole: the list of jupes stays well-formed.
use efnet_services.Common.{
  ℕ, ◌≡◌, refl, sym, ◌∙◌, subst, ◌≢◌, ◌<◌, List, [], ◌∷◌, Bool, false, not, ◌&&◌, ◌||◌, ltb, Option,
  none, some, length, Avoids, In, Bool-cases, inl, inr, ◌⊎◌, ==_false, ◌==◌,
}
use efnet_services.Run.{Text}
use efnet_services.Args.{si_next_subarg_space}
use efnet_services.Jupes.{Jupe, Jupes, Caller, World, Memory, ok}
use efnet_services.Jupes.Prune.{is_expired, jupe_find, prune, prune_loop}
use efnet_services.Jupes.Commands.{
  is_empty, is_ours, is_refused, has_dot, reason_of, server_len, jupe_found, jupe_name, do_jupe,
  do_jupes, jupes_done,
}
use efnet_services.Jupes.Pruned.{kept, found, kept_All}
use efnet_services.Jupes.Formed.{IsFormed, prune_loop-IsFormed, Walk-Avoids}
use efnet_services.Jupes.Keeps.{Forms, Unused, call_for-Forms, vote_for-Forms}

module _ (world : World) where
  -- A search ends with no jupe or with one that is left.
  found-In :
      (drops stops : Jupe → Bool) (jupe : ℕ → Jupe) (xs : List ℕ)
      → (found drops stops jupe xs ≡ 0) ⊎ In (found drops stops jupe xs) (kept drops stops jupe xs)
  found-In drops stops jupe [] = inl refl
  found-In drops stops jupe (x ∷ xs) = elim (Bool-cases (drops (jupe x))) [
    | inl y ↦ rw y (found-In drops stops jupe xs)
    | inr n ↦ elim (Bool-cases (stops (jupe x))) [
      | inl y ↦ rw (n, y) (inr (inl refl))
      | inr m ↦
          rw (n, m) (elim (found-In drops stops jupe xs) [ inl e ↦ inl e | inr i ↦ inr (inr i) ])
    ]
  ]

  Unused-fewer :
      (r : Option ℕ) (db db₁ : Jupes) (js : List ℕ) (drops stops : Jupe → Bool)
      → ((q : ℕ) → Avoids q js → db₁.juped q ≡ db.juped q)
      → Unused world r db js
      → Unused world r db₁ (kept drops stops db.jupe js)
  Unused-fewer none db db₁ js drops stops same u = tt
  Unused-fewer (some p) db db₁ js drops stops same (n, a, free) =
      (n, kept_All drops stops (λ x. p ≢ x) db.jupe js a, same p a ∙ free)

  module _ (memory : Memory) (from : Caller) (tojupe reason : Text) where
    jupe_found-Forms :
        (r : Option ℕ × Jupes) (k : ℕ) (ks : List ℕ)
        → r.0 ≡ some k
        → IsFormed world r.1 ks
        → (k ≡ 0) ⊎ In k ks
        → Unused world memory.jupe r.1 ks
        → Forms world (jupe_found world memory from tojupe reason r)
    unfolding jupe_found
    jupe_found-Forms r k ks e w i u =
        subst (λ o. Forms world (jupe_found world memory from tojupe reason (o, r.1))) (sym e)
          (elim (Bool-cases (k == 0)) [
            | inl y ↦ rw y (call_for-Forms world r.1 ks w memory from tojupe reason u)
            | inr n ↦ rw n (elim i [
              | inl z ↦ absurd (==_false k 0 n z)
              | inr here ↦ vote_for-Forms world r.1 ks w memory from k here
            ])
          ])

    jupe_name-Forms :
        (fuel : ℕ) (db : Jupes) (js : List ℕ)
        → length js < fuel
        → IsFormed world db js
        → Unused world memory.jupe db js
        → Forms world (jupe_name world fuel memory from tojupe reason db)
    unfolding jupe_find jupe_name
    jupe_name-Forms fuel db js h w u =
        let drops : Jupe → Bool = λ j. world.same_text tojupe j.name && is_expired world.now j in
        let stops : Jupe → Bool = λ j. world.same_text tojupe j.name in
        let p =
          prune_loop-IsFormed world drops stops fuel db js h
            (Walk-Avoids world db.links.next js db.first w.walk) w in
        elim (Bool-cases (is_empty tojupe || is_ours world tojupe)) [
          | inl y ↦ rw (y, jupe_name) ((λ e. cc e), (js, w))
          | inr n ↦ elim (Bool-cases (not (has_dot tojupe) || ltb server_len (length tojupe))) [
            | inl y ↦ rw (n, y, jupe_name) ((λ e. cc e), (js, w))
            | inr m ↦
                rw (n, m, jupe_name)
                  (jupe_found-Forms (jupe_find world fuel tojupe db) (found drops stops db.jupe js)
                    (kept drops stops db.jupe js) p.0 p.1 (found-In drops stops db.jupe js)
                    (Unused-fewer memory.jupe db (jupe_find world fuel tojupe db).1 js drops stops
                      p.2 u))
          ]
        ]

  -- Whoever calls _do_jupe, with any arguments and with memory or without: on a well-formed list of
  -- fewer jupes than there is fuel, where simempool_calloc gives a new record or none, it ends, and the
  -- list that it leaves is well-formed. So the score of each jupe is that of its votes as a u_int, each server
  -- and each user has voted once at most, a jupe is active exactly when it is a client of the module,
  -- and an active one has 15 points or more and does not expire.
  pub do_jupe-Forms :
      (fuel : ℕ) (memory : Memory) (from : Caller) (args : Option Text) (db : Jupes) (js : List ℕ)
      → length js < fuel
      → IsFormed world db js
      → Unused world memory.jupe db js
      → Forms world (do_jupe world fuel memory from args db)
  unfolding do_jupe
  do_jupe-Forms fuel memory from args db js h w u = elim (Bool-cases (is_refused world from)) [
    | inl y ↦ rw (y, do_jupe) ((λ e. cc e), (js, w))
    | inr n ↦ rw (n, do_jupe) (go (si_next_subarg_space args).0)
  ]
    where
      go :
          (r : Option Text)
          → Forms world (elim r [
            | none ↦ (ok, db)
            | some tojupe ↦
                jupe_name world fuel memory from tojupe (reason_of (si_next_subarg_space args).1) db
          ])
      go none = ((λ e. cc e), (js, w))
      go (some tojupe) =
          jupe_name-Forms memory from tojupe (reason_of (si_next_subarg_space args).1) fuel db js h
            w u

  -- _do_jupes, on a well-formed list of fewer jupes than there is fuel, returns 0 and leaves the list
  -- without the jupes that are expired, with the others in their order and as they were, and
  -- well-formed.
  pub do_jupes-IsFormed :
      (fuel : ℕ) (db : Jupes) (js : List ℕ)
      → length js < fuel
      → IsFormed world db js
      → ((do_jupes world fuel db).0 ≡ ok)
        × IsFormed world
            (do_jupes world fuel db).1
            (kept (is_expired world.now) (λ _. false) db.jupe js)
        × ((do_jupes world fuel db).1.jupe ≡ db.jupe)
  unfolding do_jupes prune
  do_jupes-IsFormed fuel db js h w =
      let drops : Jupe → Bool = is_expired world.now in
      let p =
        prune_loop-IsFormed world drops (λ _. false) fuel db js h
          (Walk-Avoids world db.links.next js db.first w.walk) w in
      let r = prune_loop fuel drops (λ _. false) db.first 0 db in
      subst
        (λ o.
          ((jupes_done (o, r.1)).0 ≡ ok)
          × IsFormed world (jupes_done (o, r.1)).1 (kept drops (λ _. false) db.jupe js)
          × ((jupes_done (o, r.1)).1.jupe ≡ db.jupe))
        (sym p.0) (refl, p.1, p.3)
