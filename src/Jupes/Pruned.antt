-- ===== src/Jupes/Pruned.antt =====
-- The loops that take out expired jupes against the list of jupes, read along the `_next` fields. The
-- loops leave `_prev` fields behind that name a record that is gone, so nothing is said of those.
use efnet_services.Common.{
  ℕ, zero, suc, ◌≡◌, refl, sym, ap, ◌∙◌, subst, ◌≢◌, ◌<◌, List, [], ◌∷◌, Bool, true, false, ◌==◌,
  Option, some, if◌then◌else◌, length, All, All-zip, Avoids, Distinct, Bool-cases, inl, inr, eq→==,
  ne→==, arith,
}
use efnet_services.Links.{set_next_if}
use efnet_services.Jupes.{Jupe, Jupes}
use efnet_services.Jupes.Prune.{free_jupe, drop_jupe, prune_loop}

-- The list that the `_next` fields make from a position on.
abbrev pub Walk : (ℕ → ℕ) → List ℕ → ℕ → Type 0
Walk next [] p = p ≡ 0
Walk next (x ∷ xs) p = (p ≡ x) × (x ≢ 0) × Walk next xs (next x)

-- Where the list goes on behind a record; behind none, it starts.
abbrev pub slot : Jupes → ℕ → ℕ
slot db q = if q == 0 then db.first else db.links.next q

-- What the loop does to the list `js` behind the record `prevj`, where `ks` is left of it.
pub record Left (jupe : ℕ → Jupe) (ks : List ℕ) (k prevj : ℕ) (js : List ℕ) (db : Jupes)
    (r : Option ℕ × Jupes) : Type 0 where
  pub result : r.0 ≡ some k
  pub walk : Walk r.1.links.next ks (slot r.1 prevj)
  pub frame : (q : ℕ) → q ≢ prevj → Avoids q js → slot r.1 q ≡ slot db q
  pub same : r.1.jupe ≡ jupe
  pub clients : (q : ℕ) → Avoids q js → r.1.juped q ≡ db.juped q
  pub kept_clients : All (λ q. r.1.juped q ≡ db.juped q) ks

module _ (drops stops : Jupe → Bool) where
  -- What is left of a list of jupes, and the jupe at which the loop stops.
  abbrev pub kept : (ℕ → Jupe) → List ℕ → List ℕ
  kept jupe [] = []
  kept jupe (x ∷ xs) =
      let rest = kept jupe xs in
      if drops (jupe x) then rest else if stops (jupe x) then x ∷ xs else x ∷ rest

  abbrev pub found : (ℕ → Jupe) → List ℕ → ℕ
  found jupe [] = 0
  found jupe (x ∷ xs) =
      let rest = found jupe xs in
      if drops (jupe x) then rest else if stops (jupe x) then x else rest

  abbrev pub Pruned : (ℕ → Jupe) → ℕ → List ℕ → Jupes → Option ℕ × Jupes → Type 0
  Pruned jupe prevj js = Left jupe (kept jupe js) (found jupe js) prevj js

  drop_slot : (prevj j : ℕ) (db : Jupes) → slot (drop_jupe prevj j db) prevj ≡ db.links.next j
  unfolding drop_jupe free_jupe set_next_if
  drop_slot prevj j db = ground arith

  drop_frame :
      (prevj j : ℕ) (db : Jupes) (q : ℕ) → q ≢ prevj → slot (drop_jupe prevj j db) q ≡ slot db q
  unfolding drop_jupe free_jupe set_next_if
  drop_frame prevj j db q n = ground arith

  drop_same : (prevj j : ℕ) (db : Jupes) → (drop_jupe prevj j db).jupe ≡ db.jupe
  unfolding drop_jupe free_jupe
  drop_same prevj j db = elim (Bool-cases (db.jupe j).active) [
    | inl y ↦ rw y refl
    | inr n ↦ rw n refl
  ]

  drop_clients :
      (prevj j : ℕ) (db : Jupes) (q : ℕ) → q ≢ j → (drop_jupe prevj j db).juped q ≡ db.juped q
  unfolding drop_jupe free_jupe
  drop_clients prevj j db q n = ground arith

  drop_next :
      (prevj j : ℕ) (db : Jupes) (q : ℕ)
      → q ≢ prevj
      → (drop_jupe prevj j db).links.next q ≡ db.links.next q
  unfolding drop_jupe free_jupe set_next_if
  drop_next prevj j db q n = ground arith

  drop_jupe-Walk :
      (prevj j : ℕ) (db : Jupes) (xs : List ℕ) (p : ℕ)
      → Avoids prevj xs
      → Walk db.links.next xs p
      → Walk (drop_jupe prevj j db).links.next xs p
  drop_jupe-Walk prevj j db [] p a w = w
  drop_jupe-Walk prevj j db (x ∷ xs) p a (e, n, w) = (
    e,
    n,
    subst (Walk (drop_jupe prevj j db).links.next xs)
        (sym (drop_next prevj j db x (λ k. a.0 (sym k))))
        (drop_jupe-Walk prevj j db xs (db.links.next x) a.1 w),
  )

  pub kept_All : (P : ℕ → Type 0) (jupe : ℕ → Jupe) (xs : List ℕ) → All P xs → All P (kept jupe xs)
  kept_All P jupe [] h = tt
  kept_All P jupe (x ∷ xs) h = elim (Bool-cases (drops (jupe x))) [
    | inl y ↦ rw y (kept_All P jupe xs h.1)
    | inr n ↦ elim (Bool-cases (stops (jupe x))) [
      | inl y ↦ rw (n, y) h
      | inr m ↦ rw (n, m) (h.0, kept_All P jupe xs h.1)
    ]
  ]

  module _ (jupe : ℕ → Jupe) (prevj x : ℕ) (js : List ℕ) (db : Jupes) (r : Option ℕ × Jupes)
      (proper : x ≢ 0) (n : prevj ≢ x) (f : Avoids x js) (a : Avoids prevj js) where
    dropped :
        drops (jupe x) ≡ true
        → Pruned jupe prevj js (drop_jupe prevj x db) r
        → Pruned jupe prevj (x ∷ js) db r
    dropped y p = rw y (record {
      result = p.result;
      walk = p.walk;
      frame = λ q m g. p.frame q m g.1 ∙ drop_frame prevj x db q m;
      same = p.same;
      clients = λ q g. p.clients q g.1 ∙ drop_clients prevj x db q g.0;
      kept_clients =
          All-zip (λ q. x ≢ q) (λ q. r.1.juped q ≡ (drop_jupe prevj x db).juped q)
            (λ q. r.1.juped q ≡ db.juped q) (kept jupe js)
            (λ q m e. e ∙ drop_clients prevj x db q (λ k. m (sym k)))
            (kept_All (λ q. x ≢ q) jupe js f) p.kept_clients;
    })

    passed :
        drops (jupe x) ≡ false
        → stops (jupe x) ≡ false
        → slot db prevj ≡ x
        → Pruned jupe x js db r
        → Pruned jupe prevj (x ∷ js) db r
    passed y m s p =
        rw (y, m)
          (record {
            result = p.result;
            walk = (
              p.frame prevj n a ∙ s,
              proper,
              subst (Walk r.1.links.next (kept jupe js)) (rw (ne→== x 0 proper) refl) p.walk,
            );
            frame = λ q k g. p.frame q g.0 g.1;
            same = p.same;
            clients = λ q g. p.clients q g.1;
            kept_clients = (p.clients x f, p.kept_clients);
          })

  All_refl : (juped : ℕ → Bool) (xs : List ℕ) → All (λ q. juped q ≡ juped q) xs
  All_refl juped [] = tt
  All_refl juped (x ∷ xs) = (refl, All_refl juped xs)

  -- With more fuel than jupes, the loop takes out what the reference takes out.
  pub prune_loop-Pruned :
      (fuel : ℕ) (js : List ℕ) (jupe : ℕ → Jupe) (j prevj : ℕ) (db : Jupes)
      → length js < fuel
      → db.jupe ≡ jupe
      → Distinct js
      → Avoids prevj js
      → slot db prevj ≡ j
      → Walk db.links.next js j
      → Pruned jupe prevj js db (prune_loop fuel drops stops j prevj db)
  unfolding prune_loop
  prune_loop-Pruned zero js jupe j prevj db h i d a s w = absurd (omega arith)
  prune_loop-Pruned (suc fuel) [] jupe j prevj db h i d a s w = rw (eq→== j 0 w) (record {
    result = refl;
    walk = s ∙ w;
    frame = λ q n f. refl;
    same = i;
    clients = λ q f. refl;
    kept_clients = tt;
  })
  prune_loop-Pruned (suc fuel) (x ∷ js) jupe j prevj db h i (f, d) (n, a) s (e, proper, w) =
      subst (λ k. Pruned jupe prevj (x ∷ js) db (prune_loop (suc fuel) drops stops k prevj db))
        (sym e)
        (elim (Bool-cases (drops (jupe x))) [
          | inl y ↦
              rw (ne→== x 0 proper, ap (λ g. drops (g x)) i ∙ y)
                (dropped jupe prevj x js db
                  (prune_loop fuel drops stops (db.links.next x) prevj (drop_jupe prevj x db))
                  proper n f a y
                  (prune_loop-Pruned fuel js jupe (db.links.next x) prevj (drop_jupe prevj x db)
                    (omega arith) (drop_same prevj x db ∙ i) d a (drop_slot prevj x db)
                    (drop_jupe-Walk prevj x db js (db.links.next x) a w)))
          | inr y ↦ elim (Bool-cases (stops (jupe x))) [
            | inl m ↦
                rw (ne→== x 0 proper, ap (λ g. drops (g x)) i ∙ y, ap (λ g. stops (g x)) i ∙ m)
                  (rw (y, m)
                    (record {
                      result = refl;
                      walk = (s ∙ e, proper, w);
                      frame = λ q k g. refl;
                      same = i;
                      clients = λ q g. refl;
                      kept_clients = All_refl db.juped (x ∷ js);
                    }))
            | inr m ↦
                rw (ne→== x 0 proper, ap (λ g. drops (g x)) i ∙ y, ap (λ g. stops (g x)) i ∙ m)
                  (passed jupe prevj x js db (prune_loop fuel drops stops (db.links.next x) x db)
                    proper n f a y m (s ∙ e)
                    (prune_loop-Pruned fuel js jupe (db.links.next x) x db (omega arith) i d f
                      (rw (ne→== x 0 proper) refl) w))
          ]
        ])
