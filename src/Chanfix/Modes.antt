-- ===== src/Chanfix/Modes.antt =====
-- The part of _chanfix_check that counts the modes of a channel. `isave` is -1, or what the loop of the
-- channel before left, since it is set once for all channels.
use efnet_services.Common.{
  ℕ, zero, suc, ◌+◌, ◌%◌, ◌==◌, Bool, true, Option, none, some, List, [], ◌∷◌, ltb, if◌then◌else◌,
  get_or, replicate,
}
use efnet_services.Run.{add32}
use efnet_services.ChanfixDb.Store.{ChanMode}
use efnet_services.ChanfixDb.Channel.{no_mode}

-- A write to an array.
unfoldable pub put_at : ℕ → ChanMode → List ChanMode → List ChanMode
put_at i v [] = []
put_at zero v (m ∷ ms) = v ∷ ms
put_at (suc i) v (m ∷ ms) = m ∷ put_at i v ms

abbrev pub mode_at : List ChanMode → ℕ → ChanMode
mode_at ms i = get_or ms i no_mode

-- `(isave == -1) || (cfc_modes[i].cfcm_tot_score < cfc_modes[isave].cfcm_tot_score)`
abbrev pub is_less : List ChanMode → ChanMode → Option ℕ → Bool
is_less ms m none = true
is_less ms m (some k) = ltb m.tot_score (mode_at ms k).tot_score

-- The loop: the entry of the modes if there is one, and `isave`.
unfoldable pub mode_loop : List ChanMode → ℕ → List ChanMode → ℕ → Option ℕ → Option ℕ × Option ℕ
mode_loop ms modes [] i isave = (none, isave)
mode_loop ms modes (m ∷ rest) i isave =
    let after = mode_loop ms modes rest (suc i) (if is_less ms m isave then some i else isave) in
    if modes == m.modes then (some i, isave) else after

-- An entry for other modes, of which nothing is counted.
abbrev pub emptied : ℕ → ChanMode → ChanMode
emptied modes m = record m { modes = modes; tot_score = 0; scores = replicate 14 0 }

-- The scores of a day with one more, which is a u_short.
abbrev pub one_more : List ℕ → List ℕ
one_more [] = []
one_more (s ∷ ss) = (s + 1) % 0x1_0000 ∷ ss

abbrev pub counted : ℕ → ChanMode → ChanMode
counted now m = record m {
  last_seen = now;
  scores = one_more m.scores;
  tot_score = add32 m.tot_score 1;
}

-- The entry changes places with the first one.
unfoldable pub to_front : ℕ → List ChanMode → List ChanMode
unfolding put_at
to_front i ms = if i == 0 then ms else put_at i (mode_at ms 0) (put_at 0 (mode_at ms i) ms)

abbrev pub count_at : ℕ → ChanMode → ℕ → List ChanMode → List ChanMode
count_at now m i ms = to_front i (put_at i (counted now m) ms)

-- What is done at the end of the loop; the assertion fails at an empty array.
abbrev pub mode_found : ℕ → ℕ → List ChanMode → Option ℕ × Option ℕ → Option (List ChanMode)
mode_found now modes ms (some i, isave) = some (count_at now (mode_at ms i) i ms)
mode_found now modes ms (none, some i) = some (count_at now (emptied modes (mode_at ms i)) i ms)
mode_found now modes ms (none, none) = none

-- The modes of a channel at a check, from the loop on.
unfoldable pub count_modes : ℕ → ℕ → Option ℕ → List ChanMode → Option (List ChanMode)
unfolding mode_loop to_front
count_modes now modes isave ms = mode_found now modes ms (mode_loop ms modes ms 0 isave)
