-- ===== src/Network/Delete.antt =====
-- sichannel_del of daemon/hash.c on a listed channel that has no users.
use efnet_services.Common.{
  ℕ, ◌≡◌, refl, sym, ap, ◌∙◌, subst, ◌≢◌, inl, inr, List, [], ◌∷◌, ◌++◌, ◌==◌, Bool, true, false,
  none, some, map, filter, length, All, All-zip, All-remove, Avoids, In, In-remove, All-In, update,
  update_self, Distinct, Distinct-middle, Bool-cases, ==→eq, ==_false, arith,
}
use efnet_services.Run.{Text}
use efnet_services.Links.Family.{In-split, In-middle}
use efnet_services.Table.{Table, home, remove_record}
use efnet_services.Table.Index.{Index, chains-apart}
use efnet_services.Table.Remove.{put_at, remove_record-Index}
use efnet_services.Network.{Net, Bans, channel_removed, ban_removed}
use efnet_services.Network.Banned.{Banned}
use efnet_services.Network.Unban.{sichannel_del_ban-Banned}
use efnet_services.Network.Channels.{sihash_compute_channel, unlist, sichannel_del}
use efnet_services.Network.Whole.{View, Indexed}

filter_none : (xs : List ℕ) → filter (λ x. false) xs ≡ []
filter_none [] = refl
filter_none (x ∷ xs) = filter_none xs

filter_all : (xs : List ℕ) → filter (λ x. true) xs ≡ xs
filter_all [] = refl
filter_all (x ∷ xs) = ap (λ ys. x ∷ ys) (filter_all xs)

module _ (to_lower : ℕ → ℕ) (same : Text → Text → Bool) where
  unlist-remove_record :
      (ch hv : ℕ) (t : Table) → hv ≡ home t ch → unlist ch hv t ≡ remove_record 0 ch t
  unfolding unlist remove_record
  unlist-remove_record ch hv t e = rw e refl

  put_at-within :
      (xs ys us vs : List ℕ) (buckets : ℕ → List ℕ) (s ch k : ℕ)
      → buckets s ≡ us ++ ch ∷ vs
      → Distinct (us ++ ch ∷ vs)
      → (k ≢ s → Avoids ch (buckets k))
      → All (λ c. In c (xs ++ ch ∷ ys)) (buckets k)
      → All (λ c. In c (xs ++ ys)) (put_at buckets s (us ++ vs) k)
  put_at-within xs ys us vs buckets s ch k here d off a = elim (Bool-cases (k == s)) [
    | inl y ↦ rw y (
        All-zip (λ c. ch ≢ c) (λ c. In c (xs ++ ch ∷ ys)) (λ c. In c (xs ++ ys)) (us ++ vs)
          (λ c n i. In-remove c ch xs ys (λ e. n (sym e)) i) (Distinct-middle ch us vs d)
          (All-remove (λ c. In c (xs ++ ch ∷ ys)) ch us vs
            (subst (All (λ c. In c (xs ++ ch ∷ ys))) (ap buckets (==→eq k s y) ∙ here) a)))
    | inr n ↦ rw n (
        All-zip (λ c. ch ≢ c) (λ c. In c (xs ++ ch ∷ ys)) (λ c. In c (xs ++ ys)) (buckets k)
          (λ c m i. In-remove c ch xs ys (λ e. m (sym e)) i) (off (==_false k s n)) a)
  ]

  -- The network without the channel, after its bans are gone.
  abbrev pub Deleted : ℕ → Net → View → Type 0
  Deleted ch n v =
      (xs ys : List ℕ) × (buckets : ℕ → List ℕ) × (b : Bans) × (v.cs ≡ xs ++ ch ∷ ys)
      × (sichannel_del same ch n
          ≡ some (record n {
            table = remove_record 0 ch n.table;
            banned = b;
            hooks = n.hooks ++ map (ban_removed ch none) (v.bans ch) ++ channel_removed ch ∷ [];
          }))
      × Indexed to_lower same (remove_record 0 ch n.table) n.ch_hv n.ch_name b
          (record v { cs = xs ++ ys; buckets = buckets; bans = update v.bans ch [] })

  -- A listed channel without users leaves the lists, with its bans: no assertion fails.
  pub sichannel_del-Deleted :
      (n : Net) (v : View) (ch : ℕ)
      → Indexed to_lower same n.table n.ch_hv n.ch_name n.banned v
      → In ch v.cs
      → n.members.numclients ch ≡ 0
      → Deleted ch n v
  unfolding sichannel_del remove_record
  sichannel_del-Deleted n v ch old is_listed none_on =
      let (xs, ys, e) = In-split ch v.cs is_listed in
      let h = home n.table ch in
      let (us, vs, here) =
        In-split ch (v.buckets h)
          (All-In (λ c. In c (v.buckets (home n.table c))) ch v.cs old.index.cover is_listed) in
      let hv : n.ch_hv ch ≡ h =
        All-In (λ c. n.ch_hv c ≡ home n.table c) ch v.cs old.at_hv is_listed in
      let gone : Net = record n { table = unlist ch (n.ch_hv ch) n.table } in
      let hash_is : ℕ → Type 0 =
        λ c. n.table.hashv c ≡ sihash_compute_channel to_lower (n.ch_name c) in
      let index = subst (λ cs. Index 0 n.table cs v.buckets) e old.index in
      let apart : (k : ℕ) → k ≢ h → Avoids ch (v.buckets k) = λ k m.
        All-In (λ z. Avoids z (v.buckets k)) ch (v.buckets h)
          (chains-apart 0 n.table v.cs v.buckets old.index k h m)
          (subst (In ch) (sym here) (In-middle ch us vs)) in
      let (b, run, banned) = sichannel_del_ban-Banned same ch none none gone v.bans old.banned in
      let empty =
        subst (λ ps. Banned same b (update v.bans ch ps)) (filter_none (v.bans ch)) banned in
      let no_bans : b.numbans ch ≡ 0 =
        (empty.numbans ch).0 ∙ ap length (update_self v.bans ch []) in
      let eq : sichannel_del same ch n
          ≡ some (record n {
            table = unlist ch (n.ch_hv ch) n.table;
            banned = b;
            hooks =
                n.hooks
                ++ map (ban_removed ch none) (filter (λ p. true) (v.bans ch))
                ++ channel_removed ch ∷ [];
          }) =
        rw (run, sichannel_del) (rw (none_on, no_bans) refl) in
      (
        xs,
        ys,
        put_at v.buckets h (us ++ vs),
        b,
        e,
        eq ∙ rw (unlist-remove_record ch (n.ch_hv ch) n.table hv, filter_all (v.bans ch)) refl,
        record {
          index =
              remove_record-Index 0 n.table ch xs ys us vs v.buckets index here old.positive
                old.small;
          positive = old.positive;
          small = omega arith;
          at_hv =
              All-remove (λ c. n.ch_hv c ≡ home n.table c) ch xs ys
                (subst (All (λ c. n.ch_hv c ≡ home n.table c)) e old.at_hv);
          hashed = All-remove hash_is ch xs ys (subst (All hash_is) e old.hashed);
          within = λ k.
              put_at-within xs ys us vs v.buckets h ch k here
                (subst Distinct here (old.index.bucket h).distinct) (apart k)
                (subst (λ cs. All (λ c. In c cs) (v.buckets k)) e (old.within k));
          banned = empty;
        },
      )
