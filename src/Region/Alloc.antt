-- ===== src/Region/Alloc.antt =====
-- What _chanfixdb_get_space gives out: space that was not in use, at no free block that is left.
use efnet_services.Common.{
  ℕ, suc, ◌≡◌, refl, sym, ap, ◌∙◌, subst, ◌⊎◌, inl, inr, ◌≤◌, ◌<◌, ◌+◌, List, ◌∷◌, ◌++◌, Bool, true,
  false, ◌==◌, if◌then◌else◌, length, All, All-map, All-middle, Bool-cases, Option-cases, eq→==,
  ne→==, arith, ltb, ltb→lt,
}
use efnet_services.Links.Scan.{Found}
use efnet_services.Run.{Result, done, fail, os, npos, add32, continue}
use efnet_services.Region.{Region, Disk, check}
use efnet_services.Region.{advance, use_block, fits, grow, extend, get_space, round_up, find_block}
use efnet_services.Region.Blocks.{Apart, IsFree, InUse, find_block-Found, length-le-sum_of}
use efnet_services.Region.Use.{Gives, use_block-Gives}

-- The size of the file and its mapping changed, and nothing else.
abbrev pub Resized : Region → Region → Type 0
Resized db r = (s d : ℕ) × (m : Bool) × (r ≡ record db { size = s; data_size = d; mapped = m })

abbrev pub OkOrOs {ℓ} : {A : Type ℓ} → Result A → A → Type ℓ
OkOrOs r a = (r ≡ done a) ⊎ ((e : ℕ) × (r ≡ fail (os e)))

module _ (disk : Disk) (spare : ℕ) where
  pub check-Resized : (db : Region) → Resized db (check disk db).1 × OkOrOs (check disk db).0 tt
  unfolding check
  check-Resized db = elim (Bool-cases (db.size == db.data_size)) [
    | inl y ↦ rw y ((db.size, db.data_size, db.mapped, refl), inl refl)
    | inr n ↦ elim (Option-cases (disk.mmap db.size)) [
      | inl e ↦ rw (n, e) ((db.size, db.size, true, refl), inl refl)
      | inr (c, e) ↦ rw (n, e) ((db.size, db.data_size, false, refl), inr (c, refl))
    ]
  ]

  grow-Resized :
      (end : ℕ) (db : Region)
      → Resized db (grow disk spare end db).1 × OkOrOs (grow disk spare end db).0 tt
  unfolding grow
  grow-Resized end db =
      let through = λ (s : ℕ). check-Resized (record db { size = s }) in
      elim (Option-cases (disk.ftruncate (add32 end spare))) [
        | inl e ↦ rw (e, grow) (through (add32 end spare))
        | inr (c, e) ↦ elim (Option-cases (disk.ftruncate end)) [
          | inl f ↦ rw (e, f, grow) (through end)
          | inr (d, f) ↦ rw (e, f, grow) ((db.size, db.data_size, db.mapped, refl), inr (d, refl))
        ]
      ]

  advanced-Gives :
      (db : Region) (bs : List ℕ) (size s d : ℕ) (m : Bool)
      → IsFree db bs
      → db.next_addpos + size ≤ npos
      → Gives db bs db.next_addpos size (record db {
        size = s;
        next_addpos = add32 db.next_addpos size;
        data_size = d;
        mapped = m;
      })
  advanced-Gives db bs size s d m free room =
      let e : add32 db.next_addpos size ≡ db.next_addpos + size = omega arith in
      (
        bs,
        record {
          listed = free.listed;
          filled = free.filled;
          below =
              All-map (λ b. b + db.free_size b ≤ db.next_addpos)
                (λ b. b + db.free_size b ≤ add32 db.next_addpos size) bs (λ b h. omega arith)
                free.below;
          apart = free.apart;
          total = free.total;
          bounded = free.bounded;
          high = omega arith;
        },
        (
          omega arith,
          All-map (λ b. b + db.free_size b ≤ db.next_addpos)
              (λ b. Apart db.next_addpos size b (db.free_size b)) bs (λ b h. omega arith)
              free.below,
        ),
        λ p n u. ((omega (arith, u.0), u.1), inl u.0),
      )

  module _ (db : Region) (bs : List ℕ) (size : ℕ) (free : IsFree db bs)
      (room : db.next_addpos + size ≤ npos) where
    -- The two outcomes at the end of the file: its space, or an error of the system.
    abbrev pub AtEnd : Result (ℕ × ℕ) × Region → Type 0
    AtEnd r =
        ((r.0 ≡ done (db.next_addpos, size)) × Gives db bs db.next_addpos size r.1)
        ⊎ ((e : ℕ) × (r.0 ≡ fail (os e)) × Resized db r.1 × (db.size < db.next_addpos + size))

    after_grow :
        (a : Result (Unit {0})) (q : Region)
        → db.size < db.next_addpos + size
        → Resized db q
        → OkOrOs a tt
        → AtEnd (continue (a, q) (λ _. advance db.next_addpos size))
    unfolding advance
    after_grow (done _) q lt (s, d, m, e) ok =
        subst (λ k. AtEnd (advance db.next_addpos size k)) (sym e)
          (inl (refl, advanced-Gives db bs size s d m free room))
    after_grow (fail c) q lt same (inl i) = absurd (cc)
    after_grow (fail c) q lt same (inr (e, i)) = inr (e, cc, same, lt)

    pub extend-AtEnd : AtEnd (extend disk spare size db)
    unfolding extend
    extend-AtEnd =
        let end : add32 db.next_addpos size ≡ db.next_addpos + size = omega arith in
        let g = grow-Resized (add32 db.next_addpos size) db in
        elim (Bool-cases (ltb db.size (add32 db.next_addpos size))) [
          | inr n ↦
              rw n (inl (refl, advanced-Gives db bs size db.size db.data_size db.mapped free room))
          | inl y ↦ rw y (
              after_grow (grow disk spare (add32 db.next_addpos size) db).0
                (grow disk spare (add32 db.next_addpos size) db).1
                (omega (arith, ltb→lt db.size (add32 db.next_addpos size) y)) g.0 g.1)
        ]

    -- What a call for `size` bytes returns.
    abbrev pub Outcome : Result (ℕ × ℕ) × Region → Type 0
    Outcome r =
        ((pos : ℕ) × (r.0 ≡ done (pos, size)) × Gives db bs pos size r.1)
        ⊎ ((e : ℕ) × (r.0 ≡ fail (os e))
            × Resized db r.1
            × All (λ b. fits (db.free_size b) size ≡ false) bs
            × (db.size < db.next_addpos + size))

    at_end :
        (r : Result (ℕ × ℕ) × Region)
        → All (λ b. fits (db.free_size b) size ≡ false) bs
        → AtEnd r
        → Outcome r
    at_end r f (inl (e, g)) = inl (db.next_addpos, e, g)
    at_end r f (inr (e, i, same, lt)) = inr (e, i, same, f, lt)

    after_search :
        (r : ℕ)
        → Found npos (λ p. fits (db.free_size p) size) bs r
        → Outcome
            (if r == npos then extend disk spare size db else (done (r, size), use_block size r db))
    after_search r (inl (i, f)) =
        rw (eq→== r npos i) (at_end (extend disk spare size db) f extend-AtEnd)
    after_search r (inr (us, vs, i, good, f)) =
        let free' : IsFree db (us ++ r ∷ vs) = subst (IsFree db) i free in
        let full = All-middle (λ b. 0 < db.free_size b) r us vs free'.filled in
        let below = All-middle (λ b. b + db.free_size b ≤ db.next_addpos) r us vs free'.below in
        rw (ne→== r npos (λ e. omega (arith, free.high))) (
          inl (
            r,
            refl,
            subst (λ k. Gives db k r size (use_block size r db)) (sym i)
                (use_block-Gives db us vs r size free' good),
          ))

  -- What the call returns, for all bytes in use at once.
  pub get_space-Outcome :
      (db : Region) (bs : List ℕ) (wanted : ℕ) (free : IsFree db bs)
      (room : db.next_addpos + round_up wanted ≤ npos)
      → Outcome db bs (round_up wanted) free room (get_space disk spare wanted db)
  unfolding get_space
  get_space-Outcome db bs wanted free room =
      let size = round_up wanted in
      let enough : length bs < suc db.freelist_size =
        omega (arith, length-le-sum_of db.free_size bs free.filled, free.total) in
      let (r, e, found) =
        find_block-Found db size (suc db.freelist_size) bs enough free.listed.linked in
      let e' = ap (λ (k : ℕ). find_block (suc db.freelist_size) db size k) free.listed.starts ∙ e in
      rw (e', get_space) (after_search db bs size free room r found)

  module _ (db : Region) (bs : List ℕ) (wanted p n : ℕ) where
    -- What a call returns, and that `n` bytes at `p` are still in use and not given out.
    abbrev pub Given : Result (ℕ × ℕ) × Region → Type 0
    Given r =
        ((pos : ℕ) × (cs : List ℕ) × (r.0 ≡ done (pos, round_up wanted))
          × IsFree r.1 cs
          × InUse r.1 cs pos (round_up wanted)
          × InUse r.1 cs p n
          × Apart p n pos (round_up wanted))
        ⊎ ((e : ℕ) × (r.0 ≡ fail (os e))
            × Resized db r.1
            × All (λ b. fits (db.free_size b) (round_up wanted) ≡ false) bs
            × (db.size < db.next_addpos + round_up wanted))

    -- From a well-formed state in which the bytes asked for fit below the largest position, the
    -- call returns a position whose bytes are now in use, in a well-formed state, and any `n` bytes
    -- at `p` that were in use before are still in use and are apart from the new ones; or it fails
    -- with an error of the system when no free block fits and the file is too short, and then only
    -- the size of the file and its mapping have changed. It never runs out of fuel.
    pub get_space-Given :
        IsFree db bs
        → db.next_addpos + round_up wanted ≤ npos
        → InUse db bs p n
        → Given (get_space disk spare wanted db)
    get_space-Given free room used = elim (get_space-Outcome db bs wanted free room) [
      | inl (pos, e, (cs, good, own, others)) ↦
          let (still, apart) = others p n used in inl (pos, cs, e, good, own, still, apart)
      | inr r ↦ inr r
    ]
