-- ===== src/Sdk/Events.antt =====
-- jsScript/webmssdk.js, lines 5591 to 5600 and 5751 to 5785: the lists of the last movements,
-- touches and keys, and the mean and the deviation of the speeds in them. A coordinate is only
-- compared, so its type and `===` are parameters; so are the numbers that speeds are computed in. A
-- time is what Date.now() gives.
pub mod Rising
pub mod Tracking
mod Tests
use douyin_live.Prelude.{
  ℕ, zero, suc, ◌-◌, Bool, true, false, not, ◌||◌, ◌&&◌, List, [], ◌∷◌, ◌++◌, Option, none, some,
  ltb, leb, ◌==◌, if◌then◌else◌, length, drop,
}

-- A key has no `y`.
pub record Event (C : Type 0) : Type 0 where
  pub x : C
  pub y : Option C
  pub d : ℕ

unfoldable pub last_of {ℓ} : {A : Type ℓ} → List A → Option A
last_of [] = none
last_of (a ∷ list) = elim (last_of list) [ none ↦ some a | some b ↦ some b ]

module _ {C : Type 0} (same : C → C → Bool) where
  -- `'y' in event && event.x === before.x && event.y === before.y`
  unfoldable pub same_place : Event C → Event C → Bool
  same_place before event = elim event.y [
    | none ↦ false
    | some y ↦ elim before.y [ none ↦ false | some y' ↦ same event.x before.x && same y y' ]
  ]

  unfoldable pub is_refused : Option (Event C) → Event C → Bool
  unfolding same_place
  is_refused none event = false
  is_refused (some before) event = leb event.d before.d || same_place before event

  -- `_0x9c0be2`: the first 100 events go before the test.
  unfoldable pub add_event : List (Event C) → Event C → List (Event C)
  unfolding is_refused last_of
  add_event list event =
      let kept = if ltb 200 (length list) then drop 100 list else list in
      if is_refused (last_of kept) event then kept else kept ++ event ∷ []

  -- The events of the page, from the empty list on.
  unfoldable pub add_events : List (Event C) → List (Event C) → List (Event C)
  unfolding add_event
  add_events list [] = list
  add_events list (event ∷ events) = add_events (add_event list event) events

-- The numbers that speeds are computed in.
pub record Arithmetic (R : Type 0) : Type 0 where
  pub nought : R
  pub one : R
  pub hundredth : R
  pub is_nought : R → Bool
  pub plus : R → R → R
  pub minus : R → R → R
  pub times : R → R → R
  pub per : R → ℕ → R
  -- Over the difference of a later and an earlier time.
  pub over : R → ℕ → ℕ → R
  pub root : R → R

module _ {C R : Type 0} (speed : Event C → Event C → R) where
  -- The loop of `_0x52f064`: no speed between events of the same time.
  unfoldable pub speeds : List (Event C) → List R
  speeds [] = []
  speeds (a ∷ []) = []
  speeds (a ∷ b ∷ list) =
      let more = speeds (b ∷ list) in if b.d == a.d then more else speed a b ∷ more

module _ {R : Type 0} (reals : Arithmetic R) where
  unfoldable pub sum_from : R → List R → R
  sum_from acc [] = acc
  sum_from acc (r ∷ list) = sum_from (reals.plus acc r) list

  -- `reduce` with no start throws on the empty array: `none`.
  unfoldable pub sum : List R → Option R
  unfolding sum_from
  sum [] = none
  sum (r ∷ list) = some (sum_from r list)

  unfoldable pub mean : List R → Option R
  unfolding sum
  mean list = elim (sum list) [ none ↦ none | some s ↦ some (reals.per s (length list)) ]

  unfoldable pub squares : R → List R → List R
  squares m [] = []
  squares m (r ∷ list) = reals.times (reals.minus r m) (reals.minus r m) ∷ squares m list

  unfoldable pub deviation : List R → Option R
  unfolding mean squares sum
  deviation list = if leb (length list) 1 then some reals.nought else elim (mean list) [
    | none ↦ none
    | some m ↦ elim (sum (squares m list)) [
      | none ↦ none
      | some s ↦ some (reals.root (reals.per s (length list - 1)))
    ]
  ]

-- `apart` is the difference of two coordinates, NaN where one is missing.
module _ {C R : Type 0} (reals : Arithmetic R) (apart : Option C → Option C → R) where
  -- The speed from an event to the next: keys are counted, and the others move.
  unfoldable pub speed : Bool → Event C → Event C → R
  speed is_key a b =
      let dx = apart (some b.x) (some a.x) in
      let dy = apart b.y a.y in
      if is_key
      then reals.over reals.one b.d a.d
      else reals.over (reals.root (reals.plus (reals.times dx dx) (reals.times dy dy))) b.d a.d

  -- `_0x52f064`: the mean and the deviation of the speeds, if there are more events than `least`.
  unfoldable pub statistics : List (Event C) → ℕ → Bool → Option (R × R)
  unfolding speeds speed mean deviation
  statistics list least is_key =
      if ltb least (length list)
      then elim (mean reals (speeds (speed is_key) list)) [
        | none ↦ none
        | some m ↦ elim (deviation reals (speeds (speed is_key) list)) [
          | none ↦ none
          | some v ↦ some (m, if reals.is_nought v then reals.hundredth else v)
        ]
      ]
      else some (reals.nought, reals.nought)
