-- ===== src/Tests/Chanfix.antt =====
-- A channel with one user in the database, and one with two users in the order of their scores.
use efnet_services.Common.{
  ℕ, ◌≡◌, refl, List, none, some, replicate, ◌≤◌, ◌<◌, ◌⊎◌, [], ◌∷◌, true, false, length, update,
  map, arith,
}
use efnet_services.Region
use efnet_services.ChanfixDb.Store.{ChanfixDb, check}
use efnet_services.ChanfixDb.Hash.{hash_compute_client}
use efnet_services.ChanfixDb.User.{chanuser_find, find_user_in}
use efnet_services.Chanfix.Scores.{Member, place, add_score, members_of, get_scores}
use efnet_services.Chanfix.Top.{Best, wanted, get_scores-Best}
use efnet_services.Chanfix.Needed.{score_needed}
use efnet_services.Chanfix.Rank.{Ranked, score_needed-Ranked}
use efnet_services.ChanfixDb.Store.{ChanMode}
use efnet_services.Chanfix.Modes.{count_modes, put_at}
use efnet_services.Chanfix.Check.{seen_user}
use efnet_services.Chanfix.Seen.{Counted, seen_user-Counted}
use efnet_services.Tests.Space.{empty_db, platform, no_chan, no_user, same_bytes}
use efnet_services.Tests.User.{two_users, two_users-Holds}

-- The user is "a".
abbrev one_user : ChanfixDb
one_user = record empty_db {
  chan = update empty_db.chan 16 (record no_chan { users_offset = λ _. 1; users_num = 1 });
  user = λ _. record no_user { hashv = 10575; tot_score = 7; userhost = 97 ∷ [] };
}

abbrev known : Member
known = record { pos = 1; userhost = 97 ∷ [] }

-- "~a" has no identd.
abbrev without_ident : Member
without_ident = record { pos = 2; userhost = 126 ∷ 97 ∷ [] }

get_scores-Best_example :
    ((get_scores same_bytes [] platform 16 5 3 false true
        (without_ident ∷ known ∷ [])
        []
        one_user).1
      ≡ one_user)
    × Best same_bytes [] platform 16 5 3 one_user
        (wanted same_bytes [] platform 16 5 3 one_user
          (members_of false true (without_ident ∷ known ∷ []) []))
        (get_scores same_bytes [] platform 16 5 3 false true
          (without_ident ∷ known ∷ [])
          []
          one_user).0
unfolding check Region.check
get_scores-Best_example =
    get_scores-Best same_bytes [] platform 16 5 3 one_user refl (λ pos. omega arith) false true
      (without_ident ∷ known ∷ []) []

known_counts :
    map
      (λ s. s.score)
      (get_scores same_bytes [] platform 16 5 3 false true
        (without_ident ∷ known ∷ [])
        []
        one_user).0
    ≡ 7 ∷ []
unfolding get_scores place chanuser_find check Region.check find_user_in hash_compute_client
    add_score
known_counts = refl

score_needed-Ranked_example :
    ((length {A = ℕ} (1 ∷ 2 ∷ []) ≤ 1) × (score_needed two_users 16 1 ≡ 0))
    ⊎ ((1 < length {A = ℕ} (1 ∷ 2 ∷ []))
        × Ranked two_users 16 (1 ∷ 2 ∷ []) two_users-Holds 1 (score_needed two_users 16 1))
score_needed-Ranked_example =
    score_needed-Ranked two_users 16 (1 ∷ 2 ∷ []) two_users-Holds ((omega arith, tt), (tt, tt)) 1
      refl (omega arith) (omega arith)

best_of_two : score_needed two_users 16 1 ≡ 20
unfolding score_needed
best_of_two = refl

abbrev mode_of : ℕ → ℕ → ChanMode
mode_of modes total = record {
  modes = modes;
  last_seen = 0;
  tot_score = total;
  scores = total ∷ [];
}

-- Two entries, the second with the least total.
abbrev two_modes : List ChanMode
two_modes = mode_of 3 9 ∷ mode_of 5 4 ∷ []

least_goes :
    count_modes 1000 7 none two_modes
    ≡ some (
        record { modes = 7; last_seen = 1000; tot_score = 1; scores = 1 ∷ replicate 13 0 }
        ∷ mode_of 3 9
        ∷ [])
unfolding count_modes put_at
least_goes = refl

seen_user-Counted_example :
    Counted platform 1000 two_users 1 [] (2 ∷ []) (seen_user platform 1000 1 two_users)
seen_user-Counted_example =
    seen_user-Counted platform 1000 two_users 1 [] (2 ∷ []) refl two_users-Holds
      ((omega arith, tt), (tt, tt)) (omega arith)
