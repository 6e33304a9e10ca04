-- ===== src/ChanfixDb/Channel/Create.antt =====
-- chanfixdb_channel_create on a well-formed index, once it has got space for the record.
use efnet_services.Common.{
  ℕ, ◌≡◌, refl, sym, ap, ◌∙◌, subst, ◌≢◌, ◌⊎◌, inl, inr, ◌<◌, ◌%◌, ◌&&◌, ◌==◌, List, [], ◌∷◌, false,
  All, All-zip, Avoids, In, update_ne, update_self,
}
use efnet_services.Run.{Result, done, fail, eexist, stuck, npos, Text}
use efnet_services.ChanfixDb.Store.{ChanfixDb, Chan, Platform, write_chan}
use efnet_services.ChanfixDb.Hash.{hash_compute_channel}
use efnet_services.ChanfixDb.Space.{del_space}
use efnet_services.ChanfixDb.Channel.{is_chan, new_chan, fill_chan, find_in_bucket, create_at}
use efnet_services.Table.Index.{add_at}
use efnet_services.ChanfixDb.Channel.Index.{Index, home, fill_chan-Index}
use efnet_services.ChanfixDb.Channel.Named.{
  IsHashed, HasName, LacksName, IsNew, is_chan-HasName, is_chan-LacksName, new_chan-IsNew,
}
use efnet_services.ChanfixDb.Channel.Find.{Searched, find_in_bucket-Searched}

module _ (db : ChanfixDb) (cs : List ℕ) (chain : ℕ → List ℕ) (index : Index db cs chain) (pos : ℕ)
    (new : Avoids pos cs) (new_chain : (hv : ℕ) → Avoids pos (chain hv)) where
  home_same : (c : Chan) (z : ℕ) → pos ≢ z → home (write_chan pos c db) z ≡ home db z
  home_same c z n =
      ap (λ k. k.hashv % db.info.hashtable_size) (update_ne db.chan pos c z (λ e. n (sym e)))

  -- A write to a record that is no channel leaves the index as it is.
  write_chan-Index : (c : Chan) → Index (write_chan pos c db) cs chain
  write_chan-Index c = record {
    all = index.all;
    bucket = index.bucket;
    at_home = λ hv.
        All-zip (λ z. pos ≢ z) (λ z. home db z ≡ hv) (λ z. home (write_chan pos c db) z ≡ hv)
          (chain hv) (λ z n e. home_same c z n ∙ e) (new_chain hv) (index.at_home hv);
    cover =
        All-zip (λ z. pos ≢ z) (λ z. In z (chain (home db z)))
          (λ z. In z (chain (home (write_chan pos c db) z))) cs
          (λ z n i. subst (λ k. In z (chain k)) (sym (home_same c z n)) i) new index.cover;
    counted = index.counted;
  }

del_space-Index :
    (pos size : ℕ) (db : ChanfixDb) (cs : List ℕ) (chain : ℕ → List ℕ)
    → Index db cs chain
    → Index (del_space pos size db) cs chain
unfolding del_space
del_space-Index pos size db cs chain index = record {
  all = index.all;
  bucket = index.bucket;
  at_home = index.at_home;
  cover = index.cover;
  counted = index.counted;
}

In-Avoids : (x y : ℕ) (xs : List ℕ) → In y xs → Avoids x xs → x ≢ y
In-Avoids x y [] i a = absurd i
In-Avoids x y (z ∷ xs) (inl e) (n, a) = λ k. n (k ∙ e)
In-Avoids x y (z ∷ xs) (inr i) (n, a) = In-Avoids x y xs i a

module _ (calls : Platform) (db : ChanfixDb) (cs : List ℕ) (chain : ℕ → List ℕ)
    (index : Index db cs chain) (name : Text) (pos size : ℕ) where
  abbrev hash : ℕ
  hash = hash_compute_channel calls.to_lower name

  abbrev slot : ℕ
  slot = hash % db.info.hashtable_size

  abbrev stamped : ChanfixDb
  stamped = write_chan pos (record (db.chan pos) { size = size; hashv = hash }) db

  -- The other records are as they were.
  abbrev pub Others : ChanfixDb → Type 0
  Others d = (c : ℕ) → c ≢ pos → d.chan c ≡ db.chan c

  -- The two outcomes: a channel has the name already and the index has the channels that it had, or
  -- none whose name has its hash has it and the index has a new channel of that name as well.
  abbrev pub Creates : Result ℕ × ChanfixDb → Type 0
  Creates r =
      ((c : ℕ) × (r.0 ≡ fail eexist)
        × HasName calls name (db.chan c)
        × In c (chain (hash_compute_channel calls.to_lower name % db.info.hashtable_size))
        × Index r.1 cs chain
        × Others r.1)
      ⊎ ((r.0 ≡ done pos)
          × All (λ c. LacksName calls name (db.chan c)) cs
          × Index r.1 (pos ∷ cs)
              (add_at chain (hash_compute_channel calls.to_lower name % db.info.hashtable_size) pos)
          × IsNew calls name size (r.1.chan pos)
          × Others r.1)

  same_test : (c : ℕ) → pos ≢ c → is_chan calls stamped name hash c ≡ is_chan calls db name hash c
  same_test c n =
      ap (λ k. k.hashv == hash && calls.same_text name k.name)
        (update_ne db.chan pos (record (db.chan pos) { size = size; hashv = hash }) c
          (λ e. n (sym e)))

  module _ (proper : pos ≢ npos) (new : Avoids pos cs)
      (new_chain : (hv : ℕ) → Avoids pos (chain hv)) (positive : 0 < db.info.hashtable_size)
      (room : db.info.num_channels < npos) (hashed : All (λ c. IsHashed calls (db.chan c)) cs) where
    stamped-Index : Index stamped cs chain
    stamped-Index =
        write_chan-Index db cs chain index pos new new_chain
          (record (db.chan pos) { size = size; hashv = hash })

    stamped-Others : Others stamped
    stamped-Others c n =
        update_ne db.chan pos (record (db.chan pos) { size = size; hashv = hash }) c n

    created :
        (a : Result ℕ)
        → Searched calls stamped cs chain stamped-Index name a
        → Creates (elim a [
          | done _ ↦ (fail eexist, del_space pos size stamped)
          | fail stuck ↦ (fail stuck, stamped)
          | fail _ ↦ (done pos, fill_chan name pos size hash stamped)
        ])
    unfolding fill_chan del_space
    created a (inl (c, e, named, i)) = rw e (
        inl (
          c,
          refl,
          is_chan-HasName calls name db c
              (sym (same_test c (In-Avoids pos c (chain slot) i (new_chain slot))) ∙ named),
          i,
          del_space-Index pos size stamped cs chain stamped-Index,
          stamped-Others,
        ))
    created a (inr (e, f)) = rw e (
        inr (
          refl,
          is_chan-LacksName calls name db cs hashed (
              All-zip (λ c. pos ≢ c) (λ c. is_chan calls stamped name hash c ≡ false)
                (λ c. is_chan calls db name hash c ≡ false) cs (λ c n k. sym (same_test c n) ∙ k)
                new f),
          fill_chan-Index stamped cs chain stamped-Index name pos size hash proper new new_chain
              positive room,
          subst (IsNew calls name size)
              (sym (update_self stamped.chan pos (new_chan name size hash)))
              (new_chan-IsNew calls name size),
          λ c n. update_ne stamped.chan pos (new_chan name size hash) c n ∙ stamped-Others c n,
        ))

    -- With space at a position of no channel, on a well-formed index with a hash table that is not
    -- empty and fewer channels than the largest u_int, in which the hash of each channel is that of its
    -- name, the rest of chanfixdb_channel_create fails with EEXIST when a channel of the bucket has the
    -- hash and the name, and then the index has the same channels; and when none of the channels whose
    -- names have that hash has the name, it returns the position, where the index has a new channel of
    -- that name without users as well. Either way no other record changes. It never runs out of fuel.
    pub create_at-Creates : Creates (create_at calls name (pos, size) db)
    unfolding create_at
    create_at-Creates =
        created (find_in_bucket calls stamped (db.buckets slot) name hash)
          (find_in_bucket-Searched calls stamped cs chain stamped-Index name positive)
