-- ===== src/Jupes/Formed.antt =====
-- When the list of jupes is well-formed, and that the loops that take out expired jupes keep it so.
use efnet_services.Common.{
  ℕ, ◌≡◌, refl, sym, ap, ◌∙◌, subst, ◌≢◌, ◌<◌, List, [], ◌∷◌, Bool, some, length, All, All-zip,
  Avoids, Distinct, Bool-cases, inl, inr,
}
use efnet_services.Jupes.{Jupe, Jupes, World}
use efnet_services.Jupes.Prune.{prune_loop}
use efnet_services.Jupes.Pruned.{Walk, kept, found, kept_All, prune_loop-Pruned}
use efnet_services.Jupes.Sound.{IsSound}

module _ (world : World) where
  -- The records of the list are those of `js`; each is sound, and is a client of the module when it is
  -- active.
  pub record IsFormed (db : Jupes) (js : List ℕ) : Type 0 where
    pub walk : Walk db.links.next js db.first
    pub distinct : Distinct js
    pub sound : All (λ x. IsSound world.same_text (db.jupe x)) js
    pub clients : All (λ x. db.juped x ≡ (db.jupe x).active) js

  module _ (drops stops : Jupe → Bool) where
    kept-Distinct :
        (jupe : ℕ → Jupe) (xs : List ℕ) → Distinct xs → Distinct (kept drops stops jupe xs)
    kept-Distinct jupe [] d = tt
    kept-Distinct jupe (x ∷ xs) (f, d) = elim (Bool-cases (drops (jupe x))) [
      | inl y ↦ rw y (kept-Distinct jupe xs d)
      | inr n ↦ elim (Bool-cases (stops (jupe x))) [
        | inl y ↦ rw (n, y) (f, d)
        | inr m ↦ rw (n, m) (kept_All drops stops (λ q. x ≢ q) jupe xs f, kept-Distinct jupe xs d)
      ]
    ]

    pub prune_loop-IsFormed :
        (fuel : ℕ) (db : Jupes) (js : List ℕ)
        → length js < fuel
        → Avoids 0 js
        → IsFormed db js
        → ((prune_loop fuel drops stops db.first 0 db).0 ≡ some (found drops stops db.jupe js))
          × IsFormed (prune_loop fuel drops stops db.first 0 db).1 (kept drops stops db.jupe js)
          × ((q : ℕ)
              → Avoids q js
              → (prune_loop fuel drops stops db.first 0 db).1.juped q ≡ db.juped q)
          × ((prune_loop fuel drops stops db.first 0 db).1.jupe ≡ db.jupe)
    prune_loop-IsFormed fuel db js h a w =
        let p =
          prune_loop-Pruned drops stops fuel js db.jupe db.first 0 db h refl w.distinct a refl
            w.walk in
        let r = prune_loop fuel drops stops db.first 0 db in
        let ks = kept drops stops db.jupe js in
        (
          p.result,
          record {
            walk = p.walk;
            distinct = kept-Distinct db.jupe js w.distinct;
            sound =
                subst (λ g. All (λ x. IsSound world.same_text (g x)) ks) (sym p.same)
                  (kept_All drops stops (λ x. IsSound world.same_text (db.jupe x)) db.jupe js
                    w.sound);
            clients =
                All-zip (λ x. r.1.juped x ≡ db.juped x) (λ x. db.juped x ≡ (db.jupe x).active)
                  (λ x. r.1.juped x ≡ (r.1.jupe x).active) ks
                  (λ x e f. e ∙ f ∙ ap (λ g. (g x).active) (sym p.same)) p.kept_clients
                  (kept_All drops stops (λ x. db.juped x ≡ (db.jupe x).active) db.jupe js
                    w.clients);
          },
          p.clients,
          p.same,
        )

  pub Walk-Avoids : (next : ℕ → ℕ) (xs : List ℕ) (p : ℕ) → Walk next xs p → Avoids 0 xs
  Walk-Avoids next [] p w = tt
  Walk-Avoids next (x ∷ xs) p (e, n, w) = (λ k. n (sym k), Walk-Avoids next xs (next x) w)
