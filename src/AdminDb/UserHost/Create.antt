-- ===== src/AdminDb/UserHost/Create.antt =====
-- siadmindb_userhost_create on the list of an account, once it has got space for the record.
use efnet_services.Common.{
  ℕ, suc, ◌≡◌, refl, sym, ap, ◌∙◌, subst, ◌≢◌, ◌⊎◌, inl, inr, ◌<◌, ◌++◌, List, [], ◌∷◌, Bool, true,
  false, ◌&&◌, ◌==◌, if◌then◌else◌, All, All-zip, All-middle, Avoids, In, eq→==, ne→==, arith,
  update, update_ne, update_self, map-update, update_own,
}
use efnet_services.Links.Segment.{Segment-Avoids}
use efnet_services.Links.Insert.{add_to_list-Lists}
use efnet_services.Links.Scan.{Found, scan-Found}
use efnet_services.Run.{Result, done, fail, eexist, enoent, npos, Text, add32}
use efnet_services.AdminDb.Store.{
  AdminDb, UserHost, Platform, write_userhost, userhosts_of, del_space, table_of,
}
use efnet_services.Links.{add_to_list}
use efnet_services.AdminDb.UserHost.{
  with_userhosts, is_userhost, find_userhost, fill_userhost, create_userhost_at,
}
use efnet_services.AdminDb.UserHost.Remove.{Masks}

module _ (db : AdminDb) (acct pos : ℕ) (us : List ℕ) (masks : Masks db acct us)
    (new : Avoids pos us) where
  owned_after : (v : UserHost) → All (λ u. (update db.userhost pos v u).account_offset ≡ acct) us
  owned_after v =
      All-zip (λ u. pos ≢ u) (λ u. (db.userhost u).account_offset ≡ acct)
        (λ u. (update db.userhost pos v u).account_offset ≡ acct) us
        (λ u n e. ap (λ k. k.account_offset) (update_ne db.userhost pos v u (λ i. n (sym i))) ∙ e)
        new masks.owned

  write_userhost-Masks : (v : UserHost) → Masks (write_userhost pos v db) acct us
  write_userhost-Masks v = record {
    listed = masks.listed;
    owned = owned_after v;
    counted = masks.counted;
    bounded = masks.bounded;
  }

  pub fill_userhost-Masks :
      (userhost server : Text) (size : ℕ)
      → pos ≢ npos
      → (db.account acct).userhosts_num < npos
      → Masks (fill_userhost acct userhost server pos size db) acct (pos ∷ us)
  unfolding fill_userhost
  fill_userhost-Masks userhost server size proper room =
      let e = eq→== acct acct refl in
      let own : UserHost = record {
        size = size;
        account_offset = acct;
        userhost = userhost;
        server = server;
      } in
      record {
        listed =
            rw e (add_to_list-Lists npos pos us (userhosts_of acct db) proper new masks.listed);
        owned = (rw (eq→== pos pos refl) refl, owned_after own);
        counted = rw e (omega (arith, masks.counted, room));
        bounded = rw e (omega (arith, masks.counted, room));
      }

del_space-Masks :
    (pos size : ℕ) (db : AdminDb) (acct : ℕ) (us : List ℕ)
    → Masks db acct us
    → Masks (del_space pos size db) acct us
unfolding del_space
del_space-Masks pos size db acct us masks = record {
  listed = masks.listed;
  owned = masks.owned;
  counted = masks.counted;
  bounded = masks.bounded;
}

-- A new mask leaves the table of the accounts as it is.
pub fill_userhost-table :
    (acct : ℕ) (userhost server : Text) (pos size : ℕ) (db : AdminDb)
    → table_of (fill_userhost acct userhost server pos size db) ≡ table_of db
unfolding fill_userhost
fill_userhost-table acct userhost server pos size db =
    let a = db.account acct in
    ap (λ k. record (table_of db) { hashv = k })
      (map-update (λ c. c.hashv) db.account acct
          (with_userhosts (add_to_list npos pos (userhosts_of acct db)).first
            (add32 a.userhosts_num 1) a)
        ∙ update_own (λ c. (db.account c).hashv) acct)

In-middle : (r : ℕ) (us vs : List ℕ) → In r (us ++ r ∷ vs)
In-middle r [] vs = inl refl
In-middle r (u ∷ us) vs = inr (In-middle r us vs)

module _ (calls : Platform) (db : AdminDb) (acct pos size : ℕ) (us : List ℕ)
    (userhost server : Text) where
  abbrev pub new_mask : UserHost
  new_mask = record { size = size; account_offset = acct; userhost = userhost; server = server }

  abbrev pub Others : AdminDb → Type 0
  Others d = (u : ℕ) → u ≢ pos → d.userhost u ≡ db.userhost u

  -- A mask matches already and the account has the masks that it had, or none does and the account
  -- has one mask more, which is the one asked for. The other masks are as they were.
  abbrev pub Creates : Result ℕ × AdminDb → Type 0
  Creates r =
      ((u : ℕ) × (r.0 ≡ fail eexist)
        × In u us
        × (is_userhost calls db userhost server u ≡ true)
        × Masks r.1 acct us
        × Others r.1)
      ⊎ ((r.0 ≡ done pos)
          × All (λ u. is_userhost calls db userhost server u ≡ false) us
          × Masks r.1 acct (pos ∷ us)
          × (r.1.userhost pos ≡ new_mask)
          × Others r.1)

  module _ (masks : Masks db acct us) (new : Avoids pos us) (proper : pos ≢ npos)
      (room : (db.account acct).userhosts_num < npos) where
    abbrev stamped : AdminDb
    stamped = write_userhost pos (record (db.userhost pos) { size = size }) db

    abbrev test : ℕ → Bool
    test = is_userhost calls stamped userhost server

    stamped-Masks : Masks stamped acct us
    stamped-Masks =
        write_userhost-Masks db acct pos us masks new (record (db.userhost pos) { size = size })

    stamped-Others : Others stamped
    stamped-Others u n = update_ne db.userhost pos (record (db.userhost pos) { size = size }) u n

    same_test : (u : ℕ) → pos ≢ u → test u ≡ is_userhost calls db userhost server u
    same_test u n =
        ap (λ k. calls.matches k.userhost userhost && calls.matches k.server server)
          (update_ne db.userhost pos (record (db.userhost pos) { size = size }) u (λ e. n (sym e)))

    created :
        (r : ℕ)
        → Found npos test us r
        → find_userhost calls stamped acct userhost server
          ≡ (if r == npos then fail enoent else done r)
        → Creates (create_userhost_at calls acct userhost server (pos, size) db)
    unfolding create_userhost_at fill_userhost del_space
    created r (inl (i, f)) e =
        rw (e, eq→== r npos i, create_userhost_at)
          (inr (
            refl,
            All-zip (λ u. pos ≢ u) (λ u. test u ≡ false)
                (λ u. is_userhost calls db userhost server u ≡ false) us
                (λ u n k. sym (same_test u n) ∙ k) new f,
            fill_userhost-Masks stamped acct pos us stamped-Masks new userhost server size proper
                room,
            update_self stamped.userhost pos new_mask,
            λ u n. update_ne stamped.userhost pos new_mask u n ∙ stamped-Others u n,
          ))
    created r (inr (xs, ys, i, good, f)) e =
        let a =
          subst (All (λ k. npos ≢ k)) i
            (Segment-Avoids npos db.userhost_a npos npos us masks.listed.linked) in
        let n : r ≢ npos = λ k. All-middle (λ k. npos ≢ k) r xs ys a (sym k) in
        let other = All-middle (λ k. pos ≢ k) r xs ys (subst (Avoids pos) i new) in
        rw (e, ne→== r npos n, create_userhost_at)
          (inl (
            r,
            refl,
            subst (In r) (sym i) (In-middle r xs ys),
            sym (same_test r other) ∙ good,
            del_space-Masks pos size stamped acct us stamped-Masks,
            stamped-Others,
          ))

    find_stamped :
        (r : ℕ) × Found npos test us r
        × (find_userhost calls stamped acct userhost server
            ≡ (if r == npos then fail enoent else done r))
    unfolding find_userhost
    find_stamped =
        let (r, e, found) =
          scan-Found npos test db.userhost_a (suc (db.account acct).userhosts_num) npos us
            (omega (arith, masks.counted)) masks.listed.linked in
        (r, found, rw (masks.listed.starts, e, find_userhost) refl)

    -- With space at a position of no mask, on a well-formed list of masks that is shorter than the
    -- largest u_int, the rest of siadmindb_userhost_create fails with EEXIST when a mask of the account
    -- matches the new one, and keeps the masks; and when none matches, it returns the position, where
    -- the account has a mask with the userhost and the server asked for as well. Either way no other
    -- record changes. It never runs out of fuel.
    pub create_userhost_at-Creates :
        Creates (create_userhost_at calls acct userhost server (pos, size) db)
    create_userhost_at-Creates = let (r, found, e) = find_stamped in created r found e
