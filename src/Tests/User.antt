-- ===== src/Tests/User.antt =====
-- A channel with two users, of which the second loses most of its score in a roll.
use efnet_services.Common.{ℕ, ◌≡◌, refl, ◌↔◌, List, [], ◌∷◌, update, get_or, arith}
use efnet_services.Run.{npos}
use efnet_services.ChanfixDb.Store.{ChanfixDb, ChanMode, ChanUser, sorted_users}
use efnet_services.ChanfixDb.Sorted.Place.{Holds}
use efnet_services.ChanfixDb.User.{roll_mode}
use efnet_services.ChanfixDb.User.Scores.{HasTotal, roll_mode-HasTotal}
use efnet_services.Tests.Space.{empty_db, no_chan, no_user}

abbrev scores_of : ℕ → ℕ → List ℕ
scores_of today oldest = today ∷ 0 ∷ 0 ∷ 0 ∷ 0 ∷ 0 ∷ 0 ∷ 0 ∷ 0 ∷ 0 ∷ 0 ∷ 0 ∷ 0 ∷ oldest ∷ []

abbrev low_user : ChanUser
low_user = record no_user { chan_offset = 16; tot_score = 5; scores = scores_of 5 0 }

abbrev high_user : ChanUser
high_user = record no_user { chan_offset = 16; tot_score = 20; scores = scores_of 2 18 }

abbrev pub two_users : ChanfixDb
two_users = record empty_db {
  chan =
      update empty_db.chan 16
        (record no_chan { users_sorted_first = 1; users_sorted_last = 2; users_num = 2 });
  user = update (update empty_db.user 1 low_user) 2 high_user;
  user_s = record { prev = update (λ _. npos) 2 1; next = update (λ _. npos) 1 2 };
}

pub two_users-Holds : Holds npos (sorted_users 16 two_users) (1 ∷ 2 ∷ [])
two_users-Holds = record {
  starts = refl;
  stops = refl;
  linked = (omega arith, refl, refl, (omega arith, refl, refl, tt));
  distinct = ((omega arith, tt), (tt, tt));
}

abbrev some_mode : ChanMode
some_mode = record { modes = 1; last_seen = 0; tot_score = 20; scores = scores_of 2 18 }

roll_mode-HasTotal_example :
    HasTotal (roll_mode some_mode).tot_score (roll_mode some_mode).scores
    ↔ (get_or some_mode.scores 4 0 ≡ get_or some_mode.scores 13 0)
roll_mode-HasTotal_example = roll_mode-HasTotal some_mode (refl, refl, omega arith)
