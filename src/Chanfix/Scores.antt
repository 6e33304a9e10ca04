-- ===== src/Chanfix/Scores.antt =====
-- _chanfix_ignore, _chanfix_valid_userhost and _chanfix_get_scores. The array of scores is the list of
-- those of its entries that are used.
use efnet_services.Common.{
  ℕ, ◌%◌, ◌==◌, Bool, false, not, ◌&&◌, ◌||◌, List, [], ◌∷◌, ◌++◌, ltb, if◌then◌else◌, take,
}
use efnet_services.Run.{Text, Result, done, fail}
use efnet_services.ChanfixDb.Store.{ChanfixDb, Platform}
use efnet_services.ChanfixDb.User.{chanuser_find}

-- struct _si_chanfix_ignore; `manual` and `auto` are its flags.
pub record Ignore : Type 0 where
  pub manual : Bool
  pub auto : Bool
  pub string : Text

-- The flags that a caller of _chanfix_ignore asks for.
pub data Asked : Type 0 where
  any manual auto : Asked

-- A client on a channel; `pos` stands for its SI_CLIENTLIST.
pub record Member : Type 0 where
  pub pos : ℕ
  pub userhost : Text

-- struct _si_chanfix_scoreinfo; a score is a u_short.
pub record ScoreInfo : Type 0 where
  pub score : ℕ
  pub member : Member

-- `flags && !(flags & ignores->ig_flags)`
abbrev pub is_skipped : Asked → Ignore → Bool
is_skipped any ig = false
is_skipped manual ig = not ig.manual
is_skipped auto ig = not ig.auto

-- `*userhost == '~'`
abbrev pub has_tilde : Text → Bool
has_tilde [] = false
has_tilde (c ∷ cs) = c == 126

abbrev pub info_of : ℕ → Member → ScoreInfo
info_of total m = record { score = total % 0x1_0000; member = m }

-- The loop that looks for the place of a total, and the move of the entries from there on.
unfoldable pub place : ℕ → Member → List ScoreInfo → List ScoreInfo
place total m [] = info_of total m ∷ []
place total m (s ∷ ss) =
    let rest = place total m ss in if ltb s.score total then info_of total m ∷ s ∷ ss else s ∷ rest

-- A user with a total, where the array has room for `scores_max` entries.
unfoldable pub add_score : ℕ → ℕ → ℕ → Member → List ScoreInfo → List ScoreInfo
unfolding place
add_score scores_max score_min total m scores =
    if ltb total score_min then scores else take scores_max (place total m scores)

-- The lists that a call with flags looks at: `ops_only` is 0x001 and `both` is 0x002.
abbrev pub members_of : Bool → Bool → List Member → List Member → List Member
members_of ops_only both non_ops ops =
    (if ops_only then [] else non_ops) ++ (if ops_only || both then ops else [])

-- `matches` says whether ircd_match returns 0.
module _ (matches : Text → Text → Bool) where
  -- _chanfix_ignore
  unfoldable pub is_ignored : Asked → List Ignore → Text → Bool
  is_ignored asked [] string = false
  is_ignored asked (ig ∷ igs) string =
      (not (is_skipped asked ig) && matches ig.string string) || is_ignored asked igs string

  -- _chanfix_valid_userhost
  unfoldable pub is_valid_userhost : List Ignore → Text → Bool
  unfolding is_ignored
  is_valid_userhost uhignores userhost =
      not (has_tilde userhost || is_ignored any uhignores userhost)

  module _ (uhignores : List Ignore) (calls : Platform) (chan : ℕ) (scores_max score_min : ℕ) where
    abbrev pub score_found :
        Member → List ScoreInfo → Result ℕ × ChanfixDb → List ScoreInfo × ChanfixDb
    score_found m scores (fail e, db) = (scores, db)
    score_found m scores (done pos, db) =
        (add_score scores_max score_min (db.user pos).tot_score m scores, db)

    -- The body of the loop over the clients
    unfoldable pub score_member : Member → List ScoreInfo × ChanfixDb → List ScoreInfo × ChanfixDb
    unfolding chanuser_find is_valid_userhost
    score_member m (scores, db) =
        if not (is_valid_userhost uhignores m.userhost)
        then (scores, db)
        else score_found m scores (chanuser_find calls chan m.userhost db)

    -- The loop
    unfoldable pub score_members :
        List Member → List ScoreInfo × ChanfixDb → List ScoreInfo × ChanfixDb
    unfolding score_member
    score_members [] s = s
    score_members (m ∷ ms) s = score_members ms (score_member m s)

    -- _chanfix_get_scores
    unfoldable pub get_scores :
        Bool → Bool → List Member → List Member → ChanfixDb → List ScoreInfo × ChanfixDb
    unfolding score_members
    get_scores ops_only both non_ops ops db =
        score_members (members_of ops_only both non_ops ops) ([], db)
