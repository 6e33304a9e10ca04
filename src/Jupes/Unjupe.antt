-- ===== src/Jupes/Unjupe.antt =====
-- _do_unjupe on a list whose `_prev` and `_next` fields agree.
use efnet_services.Common.{
  ℕ, zero, suc, ◌≡◌, refl, sym, ap, subst, ◌≢◌, ◌⊎◌, inl, inr, ◌<◌, List, [], ◌∷◌, ◌++◌, Bool, true,
  false, ◌&&◌, Option, none, some, if◌then◌else◌, length, head_or, All, All-map, All-middle, In,
  Bool-cases, arith, eq→==, ne→==,
}
use efnet_services.Links.{Links, del_from_list}
use efnet_services.Links.Segment.{Segment, Segment-Avoids}
use efnet_services.Links.Insert.{Lists, del_from_list-Lists}
use efnet_services.Run.{Text}
use efnet_services.Args.{si_next_subarg_space}
use efnet_services.Jupes.{Jupe, Jupes, Caller, World, Reply, ok, einval, stuck, chain_of}
use efnet_services.Jupes.Prune.{is_expired, jupe_find, prune_loop, free_jupe}
use efnet_services.Jupes.Commands.{is_empty, is_refused, unjupe_found, do_unjupe}
use efnet_services.Jupes.Pruned.{Walk, found}

Segment-Walk :
    (l : Links) (b p : ℕ) (xs : List ℕ) → p ≡ head_or 0 xs → Segment 0 l b xs 0 → Walk l.next xs p
Segment-Walk l b p [] i h = i
Segment-Walk l b p (x ∷ xs) i (n, q, e, h) = (i, n, Segment-Walk l x (l.next x) xs e h)

both : (a b : Bool) → b ≡ false → (a && b) ≡ false
both true b h = h
both false b h = refl

In-split : (p : ℕ) (xs : List ℕ) → In p xs → (us : List ℕ) × (vs : List ℕ) × (xs ≡ us ++ p ∷ vs)
In-split p [] i = absurd i
In-split p (x ∷ xs) (inl e) = ([], xs, ap (λ k. k ∷ xs) (sym e))
In-split p (x ∷ xs) (inr i) = let (us, vs, e) = In-split p xs i in (x ∷ us, vs, ap (λ k. x ∷ k) e)

module _ (drops stops : Jupe → Bool) where
  -- A loop that has nothing to take out changes nothing.
  prune_loop-keeps :
      (fuel : ℕ) (xs : List ℕ) (j prevj : ℕ) (db : Jupes)
      → length xs < fuel
      → All (λ x. drops (db.jupe x) ≡ false) xs
      → Walk db.links.next xs j
      → (prune_loop fuel drops stops j prevj db ≡ (some (found drops stops db.jupe xs), db))
        × ((found drops stops db.jupe xs ≡ 0) ⊎ In (found drops stops db.jupe xs) xs)
  unfolding prune_loop
  prune_loop-keeps zero xs j prevj db h a w = absurd (omega arith)
  prune_loop-keeps (suc fuel) [] j prevj db h a w = (rw (eq→== j 0 w) refl, inl refl)
  prune_loop-keeps (suc fuel) (x ∷ xs) j prevj db h (n, a) (e, proper, w) =
      let passed : stops (db.jupe x) ≡ false
          → found drops stops db.jupe (x ∷ xs) ≡ found drops stops db.jupe xs =
        λ m. rw (n, m) refl in
      let (i, k) = prune_loop-keeps fuel xs (db.links.next x) x db (omega arith) a w in
      elim (Bool-cases (stops (db.jupe x))) [
        | inl y ↦ (rw (e, ne→== x 0 proper, n, y) refl, rw (n, y) (inr (inl refl)))
        | inr m ↦ (
          rw (e, ne→== x 0 proper, n, m) i,
          subst (λ z. (z ≡ 0) ⊎ In z (x ∷ xs)) (sym (passed m))
              (elim k [ inl z ↦ inl z | inr z ↦ inr (inr z) ]),
        )
      ]

module _ (db : Jupes) (js : List ℕ) where
  -- An error and no change, or one active jupe that is not from the configuration is gone.
  abbrev pub Unjuped : Reply × Jupes → Type 0
  Unjuped r =
      ((r.0 ≢ ok) × (r.0 ≢ stuck) × (r.1 ≡ db))
      ⊎ ((r.0 ≡ ok)
          × ((k : ℕ) × ((us : List ℕ) × ((vs : List ℕ) × (js ≡ us ++ k ∷ vs)
                  × ((db.jupe k).active ≡ true)
                  × ((db.jupe k).conffile ≡ false)
                  × Lists 0 (chain_of r.1) (us ++ vs)
                  × (r.1.juped k ≡ false)
                  × (r.1.jupe ≡ db.jupe)))))

  module _ (good : Lists 0 (chain_of db) js) where
    freed : ℕ → Jupes
    freed k =
        let c = del_from_list 0 k (chain_of db) in
        free_jupe k (record db { first = c.first; links = c.links })

    unjupe_found-Unjuped : (k : ℕ) → (k ≡ 0) ⊎ In k js → Unjuped (unjupe_found (some k, db))
    unfolding unjupe_found free_jupe
    unjupe_found-Unjuped k (inl e) =
        rw (eq→== k 0 e, unjupe_found) (inl ((λ z. cc z), (λ z. cc z), refl))
    unjupe_found-Unjuped k (inr i) =
        let (us, vs, e) = In-split k js i in
        let l = subst (Lists 0 (chain_of db)) e good in
        let n =
          All-middle (λ z. 0 ≢ z) k us vs (Segment-Avoids 0 db.links 0 0 (us ++ k ∷ vs) l.linked) in
        elim (Bool-cases (db.jupe k).conffile) [
          | inl y ↦
              rw (ne→== k 0 (λ z. n (sym z)), y, unjupe_found)
                (inl ((λ z. cc z), (λ z. cc z), refl))
          | inr c ↦ elim (Bool-cases (db.jupe k).active) [
            | inr m ↦
                rw (ne→== k 0 (λ z. n (sym z)), c, m, unjupe_found)
                  (inl ((λ z. cc z), (λ z. cc z), refl))
            | inl y ↦
                rw (ne→== k 0 (λ z. n (sym z)), c, y, unjupe_found, free_jupe)
                  (inr (
                    refl,
                    (
                      k,
                      (
                        us,
                        (
                          vs,
                          e,
                          y,
                          c,
                          del_from_list-Lists 0 k us vs (chain_of db) l,
                          rw (eq→== k k refl) refl,
                          refl,
                        ),
                      ),
                    ),
                  ))
          ]
        ]

    module _ (world : World) (fresh : All (λ x. is_expired world.now (db.jupe x) ≡ false) js) where
      -- On a list that is well linked, with no jupe that is expired and with more fuel than jupes,
      -- _do_unjupe ends. It returns an error and changes nothing, or it takes out one jupe, which is
      -- active and not from the configuration: the list stays well linked and has the others, and the
      -- jupe is no client of the module any more.
      pub do_unjupe-Unjuped :
          (fuel : ℕ) (from : Caller) (args : Option Text)
          → length js < fuel
          → Unjuped (do_unjupe world fuel from args db)
      unfolding do_unjupe jupe_find
      do_unjupe-Unjuped fuel from args h = elim (Bool-cases (is_refused world from)) [
        | inl y ↦ rw (y, do_unjupe) (inl ((λ z. cc z), (λ z. cc z), refl))
        | inr n ↦ rw (n, do_unjupe) (go (si_next_subarg_space args).0)
      ]
        where
          searched : (tojupe : Text) → Unjuped (unjupe_found (jupe_find world fuel tojupe db))
          searched tojupe =
              let (e, i) =
                prune_loop-keeps (λ j. world.same_text tojupe j.name && is_expired world.now j)
                  (λ j. world.same_text tojupe j.name) fuel js db.first 0 db h
                  (All-map (λ x. is_expired world.now (db.jupe x) ≡ false)
                    (λ x.
                      (world.same_text tojupe (db.jupe x).name && is_expired world.now (db.jupe x))
                      ≡ false)
                    js
                    (λ x k.
                      both (world.same_text tojupe (db.jupe x).name)
                        (is_expired world.now (db.jupe x)) k)
                    fresh)
                  (Segment-Walk db.links 0 db.first js good.starts good.linked) in
              subst (λ r. Unjuped (unjupe_found r)) (sym e) (unjupe_found-Unjuped _ i)

          go :
              (r : Option Text)
              → Unjuped (elim r [
                | none ↦ (einval, db)
                | some tojupe ↦
                    if is_empty tojupe
                    then (einval, db)
                    else unjupe_found (jupe_find world fuel tojupe db)
              ])
          go none = inl ((λ z. cc z), (λ z. cc z), refl)
          go (some tojupe) = elim (Bool-cases (is_empty tojupe)) [
            | inl y ↦ rw y (inl ((λ z. cc z), (λ z. cc z), refl))
            | inr n ↦ rw n (searched tojupe)
          ]
