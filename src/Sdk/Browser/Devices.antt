-- ===== src/Sdk/Browser/Devices.antt =====
-- jsScript/webmssdk.js, lines 4877 to 4908 and 6100 to 6138: the reports on touch, the time zone and
-- the screen. The browser's answers are parameters; `none` is an exception. (-0, which
-- `-getTimezoneOffset()` may be, counts as 0.)
mod Laws
mod Tests
use douyin_live.Prelude.{
  ℕ, zero, suc, ◌-◌, ◌+◌, Bool, true, false, List, [], ◌∷◌, ◌++◌, Option, none, some, if◌then◌else◌,
  ltb, leb,
}
use douyin_live.Prelude.Int.{ℤ, pos, negsuc}
use douyin_live.Sdk.Text.{Text, codes}
use douyin_live.Sdk.Storage.{Area, absent, blocked, open_area, Web}
use douyin_live.Sdk.Browser.Report.{Report}

pub record Touch : Type 0 where
  pub touch_points : Text
  pub touch_event : Bool
  pub touch_start : Bool

unfoldable pub bool_text : Bool → Text
bool_text true = codes "true"
bool_text false = codes "false"

-- `_0x299f3a`: what is kept and the text, from the number of touch points (as text, `none` for
-- undefined), whether an event of touch can be created, and whether the window has one.
unfoldable pub touch_report : Option Text → Bool → Bool → Touch × Text
unfolding bool_text
touch_report points event start =
    let shown : Text = elim points [ none ↦ codes "0" | some text ↦ text ] in
    (
      record { touch_points = shown; touch_event = event; touch_start = start },
      shown ++ b'_' ∷ bool_text event ++ b'_' ∷ bool_text start,
    )

unfoldable pub negate : ℤ → ℤ
negate (pos zero) = pos zero
negate (pos (suc n)) = negsuc n
negate (negsuc n) = pos (suc n)

-- `Math.min` of two whole numbers.
unfoldable pub min_int : ℤ → ℤ → ℤ
min_int (pos m) (pos n) = if leb m n then pos m else pos n
min_int (pos m) (negsuc n) = negsuc n
min_int (negsuc m) (pos n) = negsuc m
min_int (negsuc m) (negsuc n) = if leb n m then negsuc m else negsuc n

-- `_0x4649a1`, from `getTimezoneOffset()` on the first day of each month (0 for January).
unfoldable pub time_zone : (ℕ → ℤ) → ℤ
unfolding negate min_int
time_zone offset = min_int (negate (offset 5)) (negate (offset 11))

pub record Screen (R : Type 0) : Type 0 where
  -- The numbers of the window and of the screen, undefined ones included.
  pub of_window : Text → Option R
  pub of_screen : Text → Option R
  -- Those of the body, where the document has one.
  pub of_body : Option (Option (Text → Option R))
  -- `v >>> 0`, `Math.floor(v)` and -1.
  pub unsigned : R → R
  pub floor : R → R
  pub minus_one : R

infixl 5 ◌>>=◌
abbrev ◌>>=◌ : {A B : Type 0} → Option A → (A → Option B) → Option B
none >>= f = none
some a >>= f = f a

module _ {R : Type 0} where
  unfoldable pub read_numbers : (Text → Option R) → (R → R) → List (Text × Text) → Option (Report R)
  read_numbers read change [] = some []
  read_numbers read change ((field, name) ∷ names) =
      read name >>= λ v. read_numbers read change names >>= λ rest. some ((field, change v) ∷ rest)

  -- The sizes of the body, or -1.
  unfoldable pub client_sizes : Screen R → Option (Report R)
  unfolding read_numbers
  client_sizes s = s.of_body >>= λ body. elim body [
    | none ↦ some ((codes "clientWidth", s.minus_one) ∷ (codes "clientHeight", s.minus_one) ∷ [])
    | some read ↦ read_numbers read s.unsigned (
        (codes "clientWidth", codes "clientWidth")
        ∷ (codes "clientHeight", codes "clientHeight")
        ∷ [])
  ]

abbrev pub same_names : List Text → List (Text × Text)
same_names [] = []
same_names (name ∷ names) = (name, name) ∷ same_names names

abbrev pub window_sizes : List (Text × Text)
window_sizes =
    same_names
      (codes "innerWidth" ∷ codes "innerHeight" ∷ codes "outerWidth" ∷ codes "outerHeight" ∷ [])

abbrev pub window_places : List (Text × Text)
window_places = same_names (codes "screenX" ∷ codes "screenY" ∷ [])

abbrev pub window_offsets : List (Text × Text)
window_offsets = same_names (codes "pageXOffset" ∷ codes "pageYOffset" ∷ [])

abbrev pub screen_sizes : List (Text × Text)
screen_sizes =
    (codes "availWidth", codes "availWidth")
    ∷ (codes "availHeight", codes "availHeight")
    ∷ (codes "sizeWidth", codes "width")
    ∷ (codes "sizeHeight", codes "height")
    ∷ []

abbrev pub screen_depths : List (Text × Text)
screen_depths = same_names (codes "colorDepth" ∷ codes "pixelDepth" ∷ [])

module _ {R : Type 0} where
  unfoldable pub screen_numbers : Screen R → Option (Report R)
  unfolding read_numbers client_sizes
  screen_numbers s = do
    sizes ← read_numbers s.of_window s.unsigned window_sizes
    places ← read_numbers s.of_window s.floor window_places
    offsets ← read_numbers s.of_window s.unsigned window_offsets
    screens ← read_numbers s.of_screen s.unsigned screen_sizes
    clients ← client_sizes s
    depths ← read_numbers s.of_screen s.unsigned screen_depths
    some (sizes ++ (places ++ (offsets ++ (screens ++ (clients ++ depths)))))

  -- `_0x5d3845`. No number is undefined after `>>> 0` or `Math.floor`, so those tests of the code
  -- always hold.
  unfoldable pub screen_report : Screen R → Report R
  unfolding screen_numbers
  screen_report s = elim (screen_numbers s) [ none ↦ [] | some report ↦ report ]
