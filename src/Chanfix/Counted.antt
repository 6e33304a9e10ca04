-- ===== src/Chanfix/Counted.antt =====
-- What a check counts for the modes of a channel.
use efnet_services.Common.{ℕ, ◌≡◌, ◌≢◌, ◌⊎◌, ◌≤◌, ◌<◌, Option, none, some, List, length}
use efnet_services.ChanfixDb.Store.{ChanMode}
use efnet_services.Chanfix.Modes.{mode_at, emptied, counted}

module _ (ms : List ChanMode) (modes : ℕ) where
  -- The entry of the modes, or when none is for them, one of those with the least total.
  abbrev pub Chosen : Option ℕ × Option ℕ → Type 0
  Chosen (some i, isave) = (i < length ms) × ((mode_at ms i).modes ≡ modes)
  Chosen (none, none) = ⊥
  Chosen (none, some i) =
      (i < length ms)
      × ((k : ℕ) → k < length ms → (mode_at ms k).modes ≢ modes)
      × ((k : ℕ) → k < length ms → (mode_at ms i).tot_score ≤ (mode_at ms k).tot_score)

  -- `isave` names an entry that is not above those before `i`.
  abbrev pub IsLeast : ℕ → Option ℕ → Type 0
  IsLeast i none = i ≡ 0
  IsLeast i (some s) =
      (s < length ms) × ((k : ℕ) → k < i → (mode_at ms s).tot_score ≤ (mode_at ms k).tot_score)

  -- The entries after a check: the counted one is the first, the one that was first is in its place,
  -- and the others are as they were.
  abbrev pub Counts : ℕ → ℕ → ChanMode → List ChanMode → Type 0
  Counts now i from r =
      (length r ≡ length ms)
      × (mode_at r 0 ≡ counted now from)
      × ((i ≡ 0) ⊎ (mode_at r i ≡ mode_at ms 0))
      × ((k : ℕ) → k ≢ 0 → k ≢ i → mode_at r k ≡ mode_at ms k)

  -- What a check of the modes comes to.
  abbrev pub Checked : ℕ → Option (List ChanMode) → Type 0
  Checked now r =
      (i : ℕ) × (from : ChanMode) × (out : List ChanMode) × (r ≡ some out)
      × (i < length ms)
      × Counts now i from out
      × (((mode_at ms i).modes ≡ modes) × (from ≡ mode_at ms i)
          ⊎ ((from ≡ emptied modes (mode_at ms i))
              × ((k : ℕ) → k < length ms → (mode_at ms k).modes ≢ modes)
              × ((k : ℕ) → k < length ms → (mode_at ms i).tot_score ≤ (mode_at ms k).tot_score)))
