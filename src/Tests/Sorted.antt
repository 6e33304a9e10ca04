-- ===== src/Tests/Sorted.antt =====
-- A list of three users, of which the first got a score that is too high for its place.
use efnet_services.Common.{ℕ, refl, [], ◌∷◌, update, arith}
use efnet_services.Links.{Links, Chain, Ends}
use efnet_services.Links.Insert.{Lists}
use efnet_services.ChanfixDb.Sorted.Place.{Holds}
use efnet_services.ChanfixDb.Sorted.Sort.{Sorts, sort_list-Sorts}

abbrev pub three_links : Links
three_links = record {
  prev = update (update (λ _. 0) 2 1) 3 2;
  next = update (update (λ _. 0) 1 2) 2 3;
}

abbrev pub three_users : Ends
three_users = record { first = 1; last = 3; links = three_links }

pub three_users-Holds : Holds 0 three_users (1 ∷ 2 ∷ 3 ∷ [])
three_users-Holds = record {
  starts = refl;
  stops = refl;
  linked = (omega arith, refl, refl, (omega arith, refl, refl, (omega arith, refl, refl, tt)));
  distinct = ((omega arith, (omega arith, tt)), ((omega arith, tt), (tt, tt)));
}

abbrev score : ℕ → ℕ
score = update (update (update (λ _. 0) 1 50) 2 20) 3 30

sort_list-Sorts_example : Sorts 0 3 score 1 (2 ∷ 3 ∷ []) three_users
sort_list-Sorts_example =
    sort_list-Sorts 0 3 score 1 [] (2 ∷ 3 ∷ []) three_users three_users-Holds
      ((omega arith, tt), (tt, tt)) (omega arith)

abbrev three_chain : Chain
three_chain = record { first = 1; links = three_links }

three_chain-Lists : Lists 0 three_chain (1 ∷ 2 ∷ 3 ∷ [])
three_chain-Lists = record {
  starts = refl;
  linked = three_users-Holds.linked;
  distinct = three_users-Holds.distinct;
}
