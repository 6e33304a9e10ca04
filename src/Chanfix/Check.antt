-- ===== src/Chanfix/Check.antt =====
-- The loop of _chanfix_check over the operators of a channel.
use efnet_services.Common.{ℕ, ◌==◌, Bool, not, List, [], ◌∷◌, if◌then◌else◌}
use efnet_services.Run.{Text, Result, done, fail, add32}
use efnet_services.ChanfixDb.Store.{ChanfixDb, ChanUser, Platform, write_user}
use efnet_services.ChanfixDb.User.{chanuser_find, chanuser_create, chanuser_sort}
use efnet_services.Chanfix.Scores.{Ignore, Member, is_valid_userhost}
use efnet_services.Chanfix.Modes.{one_more}

-- A user is counted once for a check.
unfoldable pub seen : ℕ → ChanUser → ChanUser
seen now u =
    if u.last_seen == now
    then u
    else record u { last_seen = now; tot_score = add32 u.tot_score 1; scores = one_more u.scores }

-- The count of a user and the sort. What the sort returns is not looked at.
unfoldable pub seen_user : Platform → ℕ → ℕ → ChanfixDb → ChanfixDb
unfolding seen chanuser_sort
seen_user calls now pos db =
    (chanuser_sort calls pos (write_user pos (seen now (db.user pos)) db)).1

module _ (matches : Text → Text → Bool) (uhignores : List Ignore) (calls : Platform)
    (now chan : ℕ) where
  abbrev pub seen_created : Result ℕ × ChanfixDb → ChanfixDb
  seen_created (fail e, db) = db
  seen_created (done pos, db) = seen_user calls now pos db

  abbrev pub seen_found : Text → Result ℕ × ChanfixDb → ChanfixDb
  seen_found userhost (done pos, db) = seen_user calls now pos db
  seen_found userhost (fail e, db) = seen_created (chanuser_create calls chan userhost db)

  -- The body of the loop
  unfoldable pub check_op : Member → ChanfixDb → ChanfixDb
  unfolding seen_user chanuser_find chanuser_create is_valid_userhost
  check_op m db =
      if not (is_valid_userhost matches uhignores m.userhost)
      then db
      else seen_found m.userhost (chanuser_find calls chan m.userhost db)

  -- The loop over `ch_ops`
  unfoldable pub check_ops : List Member → ChanfixDb → ChanfixDb
  unfolding check_op
  check_ops [] db = db
  check_ops (m ∷ ms) db = check_ops ms (check_op m db)
