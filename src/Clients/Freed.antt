-- ===== src/Clients/Freed.antt =====
-- What siclient_free of daemon/hash.c leaves of the servers and clients: the end of it, for a record
-- without children.
use efnet_services.Common.{
  ℕ, ◌≡◌, refl, sym, ap, ◌∙◌, subst, ◌≢◌, ◌⊎◌, inl, inr, ◌<◌, List, [], ◌∷◌, ◌++◌, All-In, Bool,
  true, false, All, In, Bool-cases, arith,
}
use efnet_services.Run.{Text}
use efnet_services.Links.Family.{In-split}
use efnet_services.Network.Joined.{Side, dec_position, put_side-Replaced}
use efnet_services.Network.Whole as Nets
use efnet_services.Clients.{Clients, World}
use efnet_services.Clients.Free.{unlink, unlinked}
use efnet_services.Clients.Formed.{View, Formed}
use efnet_services.Clients.Unlink.{without, without-All, keeps_all, unlink-Formed}

-- The records below `d` in the tree, and `d`.
pub data Under (parent : ℕ → ℕ) (d : ℕ) : ℕ → Type 0 where
  top : (x : ℕ) → x ≡ d → Under parent d x
  below : (x : ℕ) → parent x ≢ 0 → Under parent d (parent x) → Under parent d x

pub Under-below :
    (parent : ℕ → ℕ) (c x z : ℕ) → c ≢ 0 → parent x ≡ c → Under parent x z → Under parent c z
Under-below parent c x z n e (top y f) =
    let up = ap parent f ∙ e in below y (λ h. n (sym up ∙ h)) (top (parent y) up)
Under-below parent c x z n e (below y m u) = below y m (Under-below parent c x (parent y) n e u)

module _ (to_lower : ℕ → ℕ) (same : Text → Text → Bool) (rank : ℕ → ℕ) (conn parent : ℕ → ℕ)
    (jupe : ℕ → Bool) where
  -- The fields that are not written.
  pub record Fixed (p : Clients) : Type 0 where
    pub conn_is : p.conn ≡ conn
    pub parent_is : p.parent ≡ parent
    pub jupe_is : p.jupe ≡ jupe

  -- The network of channels is well-formed.
  abbrev pub NetOk : World → Type 0
  NetOk w = (v : Nets.View) × Nets.Whole to_lower same w.net v

  -- From the lists `t` to the lists `u` records below `d` may be gone, none of `kept` is, and the lists
  -- of children of the records above `d` and beside it are the same.
  pub record Between (kept : List ℕ) (d : ℕ) (t u : View) : Type 0 where
    pub fewer : (b : Bool) (x : ℕ) → In x (u.all b) → In x (t.all b)
    pub spared : (b : Bool) (x : ℕ) → In x (t.all b) → In x (u.all b) ⊎ Under parent d x
    pub stays : (b : Bool) (x : ℕ) → In x kept → In x (t.all b) → In x (u.all b)
    pub lower : (s : Side) → rank s.0 < rank d → u.kids s ≡ t.kids s

  -- The record `d` and those below it are gone, and nothing else.
  pub record Freed (dying : List ℕ) (d : ℕ) (cli : Bool) (us vs : List ℕ) (t : View) (r : World)
      (u : View) : Type 0 where
    pub formed : Formed rank dying r.people u
    pub fixed : Fixed r.people
    pub net : NetOk r
    pub gone : (b : Bool) → In d (u.all b) → ⊥
    pub fewer : (b : Bool) (x : ℕ) → In x (u.all b) → In x (t.all b)
    pub spared : (b : Bool) (x : ℕ) → In x (t.all b) → In x (u.all b) ⊎ Under parent d x
    pub stays : (b : Bool) (x : ℕ) → In x dying → In x (t.all b) → In x (u.all b)
    pub lower : (s : Side) → rank s.0 < rank d → s ≢ (parent d, cli) → u.kids s ≡ t.kids s
    pub own : u.kids (parent d, cli) ≡ us ++ vs

  oper_split :
      (dying : List ℕ) (p : Clients) (u : View) (cli : Bool) (d : ℕ)
      → Formed rank dying p u
      → In d (u.all cli)
      → (os : List ℕ) × (ts : List ℕ) × (p.is_oper d ≡ true → u.opers ≡ os ++ d ∷ ts)
  oper_split dying p u cli d formed i = elim (Bool-cases (p.is_oper d)) [
    | inl y ↦ let (os, ts, e) = In-split d u.opers ((formed.placed cli d i).3 y) in (os, ts, λ z. e)
    | inr n ↦ ([], [], λ z. absurd (clash z n))
  ]
    where
      clash : p.is_oper d ≡ true → p.is_oper d ≡ false → ⊥
      clash e f = cc

  -- The last lines of siclient_free.
  pub unlinked-Freed :
      (dying : List ℕ) (d : ℕ) (cli : Bool) (us vs : List ℕ) (t u : View) (w : World)
      → Formed rank (d ∷ dying) w.people u
      → Fixed w.people
      → NetOk w
      → In d (u.all cli)
      → u.kids (parent d, cli) ≡ us ++ d ∷ vs
      → ((b : Bool) → u.kids (d, b) ≡ [])
      → parent d ≢ 0
      → All (λ y. rank y < rank d) dying
      → Between (d ∷ dying) d t u
      → (r : View) × Freed dying d cli us vs t (unlinked cli d w) r
  unfolding unlink
  unlinked-Freed dying d cli us vs t u w formed fixed net i in_kids bare proper lower between =
      let p = w.people in
      let par : p.parent d ≡ parent d = ap (λ (f : ℕ → ℕ). f d) fixed.parent_is in
      let (ks, bs, in_all) = In-split d (u.all cli) i in
      let (os, ts, in_opers) = oper_split (d ∷ dying) p u cli d formed i in
      let own = subst (λ (k : ℕ). u.kids (k, cli) ≡ us ++ d ∷ vs) (sym par) in_kids in
      let under : p.parent d ≢ 0 = λ z. proper (sym par ∙ z) in
      let r =
        without rank dying p u d cli formed ks bs us vs os ts in_all own in_opers bare under in
      let off : (b : Bool) (x : ℕ) → In x (r.all b) → In x (u.all b) × (x ≢ d) = λ b x j.
        without-All rank dying p u d cli formed ks bs us vs os ts in_all own in_opers bare under b x
          j in
      let on : (b : Bool) (x : ℕ) → x ≢ d → In x (u.all b) → In x (r.all b) = λ b x n j.
        keeps_all rank dying p u d cli formed ks bs us vs os ts in_all own in_opers bare under b x n
          j in
      let kids = put_side-Replaced u.kids (p.parent d, cli) (us ++ vs) in
      (
        r,
        record {
          formed =
              unlink-Formed rank dying p u d cli formed ks bs us vs os ts in_all own in_opers bare
                under;
          fixed = record {
            conn_is = fixed.conn_is;
            parent_is = fixed.parent_is;
            jupe_is = fixed.jupe_is;
          };
          net = net;
          gone = λ b j. (off b d j).1 refl;
          fewer = λ b x j. between.fewer b x (off b x j).0;
          spared = λ b x j. elim (between.spared b x j) [
            | inr z ↦ inr z
            | inl h ↦ elim (dec_position x d) [ inl e ↦ inr (top x e) | inr n ↦ inl (on b x n h) ]
          ];
          stays = λ b x k j.
              on b x (λ e. apart x e (All-In (λ y. rank y < rank d) x dying lower k))
                (between.stays b x (inr k) j);
          lower =
              λ s r n. kids.same s (λ e. n (e ∙ ap (λ (k : ℕ). (k, cli)) par)) ∙ between.lower s r;
          own = ap r.kids (ap (λ (k : ℕ). (k, cli)) (sym par)) ∙ kids.new;
        },
      )
    where
      apart : (x : ℕ) → x ≡ d → rank x < rank d → ⊥
      apart x e h = omega (arith, ap rank e)
