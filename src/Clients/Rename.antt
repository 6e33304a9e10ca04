-- ===== src/Clients/Rename.antt =====
-- siclient_change_nick of daemon/hash.c on lists that are well-formed.
use efnet_services.Common.{
  ℕ, ◌≡◌, refl, sym, ap, ◌∙◌, subst, ◌≢◌, ◌⊎◌, inl, inr, List, [], ◌∷◌, ◌++◌, true, Avoids, In,
  In-All, update, update_self, eq→==, ne→==,
}
use efnet_services.Run.{Text}
use efnet_services.Links.{Links, add_to_list, del_from_list}
use efnet_services.Links.Family.{
  Family, Replaced, In-middle, add_to_list-Family, del_from_list-Family, added-In, added-new,
  added-keeps, removed-In, removed-keeps,
}
use efnet_services.Network.{ok}
use efnet_services.Network.Joined.{dec_position, update-Replaced}
use efnet_services.Clients.{Clients}
use efnet_services.Clients.Lists.{is_client, sihash_compute_client, bucket, hash_add, hash_del}
use efnet_services.Clients.Formed.{View, Formed}
use efnet_services.Clients.Search.{siclient_change_nick}
use efnet_services.Clients.Named.{Named, slot_of}

module _ (to_lower : ℕ → ℕ) (rank : ℕ → ℕ) (p : Clients) (v : View) (c : ℕ) (nick : Text)
    (us vs : List ℕ) where
  abbrev q : Clients
  q = (siclient_change_nick to_lower true c nick p).1

  abbrev new_slot : ℕ
  new_slot = slot_of to_lower (update p.name c nick c)

  abbrev without_c : ℕ → List ℕ
  without_c = update v.bucket (p.hv c) (us ++ vs)

  -- The client moves to the bucket of the new name.
  abbrev pub renamed : View
  renamed = record v { bucket = update without_c new_slot (c ∷ without_c new_slot) }

  module _ (formed : Formed rank [] p v) (here : v.bucket (p.hv c) ≡ us ++ c ∷ vs)
      (proper : c ≢ 0) where
    abbrev left_heads : ℕ → ℕ
    left_heads = update p.buckets (p.hv c) (del_from_list 0 c (bucket (p.hv c) p)).first

    abbrev left_links : Links
    left_links = (del_from_list 0 c (bucket (p.hv c) p)).links

    off : Replaced 0 dec_position (p.hv c) (us ++ vs) v.bucket without_c
    off = update-Replaced v.bucket (p.hv c) (us ++ vs)

    on : Replaced 0 dec_position new_slot (c ∷ without_c new_slot) without_c renamed.bucket
    on = update-Replaced without_c new_slot (c ∷ without_c new_slot)

    left : Family 0 dec_position left_heads left_links without_c
    left =
        del_from_list-Family 0 dec_position p.buckets left_heads p.h_links v.bucket without_c
          (p.hv c) formed.hash c us vs here
          (update-Replaced p.buckets (p.hv c) (del_from_list 0 c (bucket (p.hv c) p)).first) off

    left-In : (k x : ℕ) → In x (without_c k) → In x (v.bucket k) × (x ≢ c)
    left-In k x i =
        removed-In 0 dec_position p.buckets p.buckets p.h_links v.bucket without_c (p.hv c)
          formed.hash c x us vs k here off i

    new-In : (k x : ℕ) → In x (renamed.bucket k) → ((x ≡ c) × (k ≡ new_slot)) ⊎ In x (without_c k)
    new-In k x i =
        added-In 0 dec_position left_heads left_heads left_links without_c renamed.bucket new_slot
          left c x k on i

    off_all : (k : ℕ) → Avoids c (without_c k)
    off_all k = In-All (λ z. c ≢ z) (without_c k) (λ x i e. (left-In k x i).1 (sym e))

    was : In c (v.bucket (p.hv c))
    was = subst (In c) (sym here) (In-middle c us vs)

    moved : (x : ℕ) → In x [] ⊎ In x (v.bucket (p.hv x)) → In x [] ⊎ In x (renamed.bucket (q.hv x))
    unfolding siclient_change_nick hash_add hash_del
    moved x (inl i) = absurd i
    moved x (inr i) = elim (dec_position x c) [
      | inl e ↦ rw (eq→== x c e) (
          inr (
            subst (λ (y : ℕ). In y (renamed.bucket new_slot)) (sym e)
              (added-new 0 dec_position left_heads left_heads left_links without_c renamed.bucket
                new_slot left c on)))
      | inr n ↦ rw (ne→== x c n) (
          inr (
            added-keeps 0 dec_position left_heads left_heads left_links without_c renamed.bucket
              new_slot left c x (p.hv x) on
              (removed-keeps 0 dec_position p.buckets p.buckets p.h_links v.bucket without_c
                (p.hv c) formed.hash c x us vs (p.hv x) here off n i)))
    ]

    hashed :
        (k x : ℕ)
        → In x (renamed.bucket k)
        → (q.hv x ≡ k) × Avoids x [] × In x (v.all (is_client p x))
    unfolding siclient_change_nick hash_add hash_del
    hashed k x i = elim (new-In k x i) [
      | inl (e, f) ↦ (
        rw (eq→== x c e) (sym f),
        tt,
        subst (λ (y : ℕ). In y (v.all (is_client p y))) (sym e) (formed.hashed (p.hv c) c was).2,
      )
      | inr h ↦
          let (j, n) = left-In k x h in
          let (a, d, b) = formed.hashed k x j in (rw (ne→== x c n) a, tt, b)
    ]

    -- On well-formed lists, and with memory for the name, a client of the hash table moves to the bucket of the new name and stays on all other
    -- lists, which are well-formed again; each record is in the bucket of its name.
    pub siclient_change_nick-Formed :
        Named to_lower p v
        → ((siclient_change_nick to_lower true c nick p).0 ≡ ok)
          × Formed rank [] (siclient_change_nick to_lower true c nick p).1 renamed
          × Named to_lower (siclient_change_nick to_lower true c nick p).1 renamed
    unfolding siclient_change_nick hash_add hash_del
    siclient_change_nick-Formed named = (
      refl,
      record {
        all = formed.all;
        kids = formed.kids;
        hash =
            add_to_list-Family 0 dec_position left_heads q.buckets left_links without_c
              renamed.bucket new_slot left c proper off_all
              (update-Replaced left_heads new_slot
                (add_to_list 0 c
                  (record { first = left_heads new_slot; links = left_links })).first)
              on;
        oper = formed.oper;
        placed = λ b x i. let (t, h, g, o) = formed.placed b x i in (t, moved x h, g, o);
        kid = formed.kid;
        hashed = hashed;
        opered = formed.opered;
        numclients = formed.numclients;
        numgservers = formed.numgservers;
        numopers = formed.numopers;
      },
      λ k x i. elim (new-In k x i) [
        | inl (e, f) ↦
            let nm = update p.name c nick in
            (
              subst
                  (λ (y : ℕ).
                    update p.hashv c (sihash_compute_client to_lower (nm c)) y
                    ≡ sihash_compute_client to_lower (nm y))
                  (sym e) (update_self p.hashv c (sihash_compute_client to_lower (nm c))),
              f ∙ ap (λ (y : ℕ). slot_of to_lower (nm y)) (sym e),
            )
        | inr h ↦ let (j, n) = left-In k x h in let (a, b) = named k x j in rw (ne→== x c n) (a, b)
      ],
    )
