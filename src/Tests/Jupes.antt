-- ===== src/Tests/Jupes.antt =====
-- Lists of jupes with none, one and two of them.
use efnet_services.Common.{
  ℕ, ◌≡◌, refl, [], ◌∷◌, Bool, true, false, none, some, arith, ◌==◌, if◌then◌else◌,
}
use efnet_services.Links.{add_to_list, del_from_list}
use efnet_services.Links.Insert.{Lists}
use efnet_services.Run.{Text}
use efnet_services.Args.{next_subarg, cut_word, skip, word, next_src, after_word}
use efnet_services.Jupes.Votes.{with_vote}
use efnet_services.Jupes.{Jupe, Jupes, Caller, World, Memory, ok, chain_of}
use efnet_services.Jupes.Prune.{is_expired, drop_jupe, prune_loop}
use efnet_services.Jupes.Commands.{do_jupe, do_unjupe, do_jupes}
use efnet_services.Jupes.Pruned.{kept}
use efnet_services.Jupes.Formed.{IsFormed}
use efnet_services.Jupes.Keeps.{Forms}
use efnet_services.Jupes.Whole.{do_jupe-Forms, do_jupes-IsFormed}
use efnet_services.Jupes.Unjupe.{Unjuped, do_unjupe-Unjuped}
use efnet_services.Tests.Space.{same_bytes}

-- Texts that are the same match.
abbrev world : World
world = record {
  now = 1000;
  my_name = 109 ∷ [];
  uplink = none;
  ouh_ignores = [];
  oserv_ignores = [];
  matches = same_bytes;
  same_text = same_bytes;
  add_client = λ n. none;
}

abbrev caller : Caller
caller = record { nick = 110 ∷ []; userhost = 117 ∷ []; server = 115 ∷ []; authed = false }

abbrev memory : Memory
memory = record { jupe = some 8; strings = true; vote = true }

-- A jupe of a name with a time, active or not.
abbrev jupe_of : Text → ℕ → Bool → Jupe
jupe_of name expires active = record {
  name = name;
  reason = [];
  username = [];
  hostname = [];
  creation = 0;
  last_heard = 0;
  expires = expires;
  active = active;
  conffile = false;
  score = 0;
  svotes = [];
}

abbrev no_jupes : Jupes
no_jupes = record {
  first = 0;
  links = record { prev = λ _. 0; next = λ _. 0 };
  jupe = λ _. jupe_of [] 0 false;
  juped = λ _. false;
}

no_jupes-IsFormed : IsFormed world no_jupes []
no_jupes-IsFormed = record { walk = refl; distinct = tt; sound = tt; clients = tt }

-- "a.b" is called for with the reason "x".
do_jupe-Forms_example :
    Forms world (do_jupe world 1 memory caller (some (97 ∷ 46 ∷ 98 ∷ 32 ∷ 120 ∷ [])) no_jupes)
do_jupe-Forms_example =
    do_jupe-Forms world 1 memory caller (some (97 ∷ 46 ∷ 98 ∷ 32 ∷ 120 ∷ [])) no_jupes []
      (omega arith) no_jupes-IsFormed (omega arith, tt, refl)

called_for :
    (do_jupe world 1 memory caller (some (97 ∷ 46 ∷ 98 ∷ 32 ∷ 120 ∷ [])) no_jupes).1.first ≡ 8
unfolding do_jupe next_subarg cut_word skip word prune_loop next_src after_word with_vote
    add_to_list
called_for = refl

-- One jupe at 8, which is expired.
abbrev one_expired : Jupes
one_expired = record no_jupes { first = 8; jupe = λ _. jupe_of (97 ∷ 46 ∷ []) 500 false }

one_expired-IsFormed : IsFormed world one_expired (8 ∷ [])
one_expired-IsFormed = record {
  walk = (refl, omega arith, refl);
  distinct = (tt, tt);
  sound = (
    record { scored = refl; modest = tt; once = tt; elected = λ y. cc y; lasting = λ y. cc y },
    tt,
  );
  clients = (refl, tt);
}

do_jupes-IsFormed_example :
    ((do_jupes world 2 one_expired).0 ≡ ok)
    × IsFormed world
        (do_jupes world 2 one_expired).1
        (kept (is_expired 1000) (λ _. false) one_expired.jupe (8 ∷ []))
    × ((do_jupes world 2 one_expired).1.jupe ≡ one_expired.jupe)
do_jupes-IsFormed_example =
    do_jupes-IsFormed world 2 one_expired (8 ∷ []) (omega arith) one_expired-IsFormed

-- One jupe at 8, which is active.
abbrev one_active : Jupes
one_active = record no_jupes {
  first = 8;
  jupe = λ _. jupe_of (97 ∷ 46 ∷ []) 0 true;
  juped = λ _. true;
}

one_active-Lists : Lists 0 (chain_of one_active) (8 ∷ [])
one_active-Lists = record {
  starts = refl;
  linked = (omega arith, refl, refl, tt);
  distinct = (tt, tt);
}

do_unjupe-Unjuped_example :
    Unjuped one_active (8 ∷ []) (do_unjupe world 2 caller (some (97 ∷ 46 ∷ [])) one_active)
unfolding is_expired
do_unjupe-Unjuped_example =
    do_unjupe-Unjuped one_active (8 ∷ []) one_active-Lists world (refl, tt) 2 caller
      (some (97 ∷ 46 ∷ [])) (omega arith)

-- "a." at 8 is expired, "b." at 9 is active.
abbrev two_jupes : Jupes
two_jupes = record {
  first = 8;
  links = record { prev = λ q. if q == 9 then 8 else 0; next = λ q. if q == 8 then 9 else 0 };
  jupe = λ q. if q == 8 then jupe_of (97 ∷ 46 ∷ []) 500 false else jupe_of (98 ∷ 46 ∷ []) 0 true;
  juped = λ q. q == 9;
}

-- When the first jupe has expired, the head still names the jupe behind it after that is unjuped.
stale_first :
    (do_unjupe world 2 caller (some (98 ∷ 46 ∷ [])) (do_jupes world 3 two_jupes).1).1.first ≡ 9
unfolding do_unjupe do_jupes is_expired del_from_list next_subarg cut_word skip word prune_loop
    drop_jupe
stale_first = refl

stale_code : (do_unjupe world 2 caller (some (98 ∷ 46 ∷ [])) (do_jupes world 3 two_jupes).1).0 ≡ ok
unfolding do_unjupe do_jupes is_expired del_from_list next_subarg cut_word skip word prune_loop
    drop_jupe
stale_code = refl
