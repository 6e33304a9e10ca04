-- ===== src/Clients/Typed.antt =====
-- The fields of a new record of daemon/hash.c that are written before siclient_add.
use efnet_services.Common.{
  ℕ, All-In, ◌≡◌, refl, sym, ◌∙◌, subst, ◌≢◌, inl, inr, [], ◌==◌, Bool, Avoids, In, update, ne→==,
}
use efnet_services.Clients.{Clients}
use efnet_services.Clients.Lists.{is_client}
use efnet_services.Clients.Formed.{View, Formed}

-- The type of a record that is on no list yet may be written.
pub typed-Formed :
    (rank : ℕ → ℕ) (p : Clients) (v : View) (c k : ℕ)
    → Formed rank [] p v
    → ((b : Bool) → Avoids c (v.all b))
    → Formed rank [] (record p { c_type = update p.c_type c k }) v
typed-Formed rank p v c k f fresh = record {
  all = f.all;
  kids = f.kids;
  hash = f.hash;
  oper = f.oper;
  placed = λ b x i. let (t, h, g, o) = f.placed b x i in (kept b x i ∙ t, h, g, o);
  kid = λ s x i.
      let (e, j, (l, m), r) = f.kid s x i in
      (
        e,
        j,
        (
          subst (λ (b : Bool). In s.0 (v.all b)) (sym (kept (is_client p s.0) s.0 l)) l,
          elim m [ inl z ↦ inl (kept (is_client p s.0) s.0 l ∙ z) | inr z ↦ inr z ],
        ),
        r,
      );
  hashed = λ j x i.
      let (e, d, l) = f.hashed j x i in
      (e, d, subst (λ (b : Bool). In x (v.all b)) (sym (kept (is_client p x) x l)) l);
  opered = λ x i.
      let (e, l) = f.opered x i in
      (e, subst (λ (b : Bool). In x (v.all b)) (sym (kept (is_client p x) x l)) l);
  numclients = f.numclients;
  numgservers = f.numgservers;
  numopers = f.numopers;
}
  where
    kept : (b : Bool) (x : ℕ) → In x (v.all b) → (update p.c_type c k x == 0) ≡ (p.c_type x == 0)
    kept b x i = rw (ne→== x c (λ e. All-In (λ z. c ≢ z) x (v.all b) (fresh b) i (sym e))) refl
