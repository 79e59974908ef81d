-- ===== src/Sdk/Fields.antt =====
-- jsScript/webmssdk.js, lines 4694 to 4700, 5274 to 5284, 6011 to 6036, 6050 to 6074 and 6239 to
-- 6250: how the properties of the browser's objects are turned into codes and masks. A property is
-- what the script looks at: its type, and whether it is truthy or empty. Reading a property may
-- throw. `'' + v` and `Math.floor` are parameters. Boxed values (`new Boolean(true)`) are left out.
mod Tests
use douyin_live.Prelude.{
  ℕ, zero, suc, ◌+◌, ◌*◌, ◌%◌, ◌^◌, Bool, true, false, List, [], ◌∷◌, Option, none, some, leb,
  if◌then◌else◌, length, bit_or,
}
use douyin_live.Prelude.Int.{ℤ, pos, negsuc}
use douyin_live.Sdk.Text.{Text}

pub data Property : Type 0 where
  undefined null_value symbol plain_object : Property
  -- `document.all`, which is falsy and whose type is undefined.
  all_collection : Property
  boolean : Bool → Property
  -- Whether the number is truthy.
  number : Bool → Property
  text_value : Text → Property
  -- With its length.
  array : ℕ → Property
  -- Another object, and one whose tag throws.
  tagged_object throwing_object : Property
  -- A function, and one with another tag, as an asynchronous one has.
  function_value tagged_function : Property

-- One bit for each value (a mask stands for its pattern of 32 bits), the last one the lowest:
-- `_0x2a900b`.
unfoldable pub flags_mask : List Bool → ℕ
flags_mask [] = 0
flags_mask (b ∷ flags) =
    bit_or ((if b then 1 else 0) * 2 ^ (length flags % 32) % 2 ^ 32) (flags_mask flags)

-- `_0x2195cd` of a property that is read: 1 for an object, a function or a text.
unfoldable pub presence : Property → ℕ
presence plain_object = 1
presence tagged_object = 1
presence throwing_object = 1
presence function_value = 1
presence tagged_function = 1
presence (array n) = 1
presence (text_value (c ∷ text)) = 1
presence _ = 2

-- `_0xdc4d4c`
unfoldable pub type_code : Property → ℤ
type_code (boolean b) = if b then pos 1 else pos 2
type_code function_value = pos 3
type_code undefined = pos 4
type_code (number b) = pos 5
type_code (text_value []) = pos 7
type_code (text_value (c ∷ text)) = pos 8
type_code (array zero) = pos 9
type_code (array (suc n)) = pos 10
type_code plain_object = pos 11
type_code all_collection = pos 12
type_code null_value = pos 99
type_code tagged_object = pos 99
type_code tagged_function = negsuc 0
type_code symbol = negsuc 0
type_code throwing_object = negsuc 1

-- What `_0x5e5a64` keeps of a property: a truth value for one that is missing, an object or a
-- function, and any other value itself.
unfoldable pub kept_value : Property → Property
kept_value undefined = boolean false
kept_value null_value = boolean false
kept_value all_collection = boolean false
kept_value plain_object = boolean true
kept_value tagged_object = boolean true
kept_value throwing_object = boolean true
kept_value function_value = boolean true
kept_value tagged_function = boolean true
kept_value (array n) = boolean true
kept_value v = v

-- `_0x5e5a64`, from the property of each name.
unfoldable pub kept_fields : (Text → Property) → List Text → List (Text × Property)
unfolding kept_value
kept_fields read [] = []
kept_fields read (key ∷ keys) = (key, kept_value (read key)) ∷ kept_fields read keys

-- The loop of `_0x252788`. At a place of 32 or more it stops.
unfoldable pub add_presences : (Text → Property) → ℕ → ℕ → List Text → ℕ
unfolding presence
add_presences read place mask [] = mask
add_presences read place mask (key ∷ keys) =
    let mask' = bit_or mask (presence (read key) * 2 ^ (place % 32) % 2 ^ 32) in
    let rest = add_presences read (suc place) mask' keys in if leb 32 place then mask' else rest

-- `_0x252788`
unfoldable pub presence_mask : (Text → Property) → List Text → ℕ → ℕ
unfolding add_presences
presence_mask read keys shift = add_presences read shift 0 keys

pub data Format : Type 0 where
  as_string as_number as_type as_other : Format

pub data Shown (R : Type 0) : Type 0 where
  shown_text : Text → Shown R
  shown_number : R → Shown R
  shown_code : ℤ → Shown R

unfoldable pub is_truthy : Property → Bool
is_truthy undefined = false
is_truthy null_value = false
is_truthy all_collection = false
is_truthy (boolean b) = b
is_truthy (number b) = b
is_truthy (text_value []) = false
is_truthy _ = true

unfoldable pub shown_of : {A R : Type 0} → (A → Shown R) → Option A → Option (Shown R)
shown_of show none = none
shown_of show (some a) = some (show a)

-- `'' + v`, with `none` for its exception, and `Math.floor(v)` of a truthy value.
module _ {R : Type 0} (to_text : Property → Option Text) (floor : Property → Option R)
    (minus_one : R) where
  unfoldable pub show_value : Format → Property → Option (Shown R)
  unfolding is_truthy type_code shown_of
  show_value as_string v = shown_of (λ t. shown_text t) (to_text v)
  show_value as_number v =
      if is_truthy v
      then shown_of (λ r. shown_number r) (floor v)
      else some (shown_number minus_one)
  show_value as_type v = some (shown_code (type_code v))
  show_value as_other v = none

  -- `_0x58210c`: a property that throws is undefined, as are those of no object. `none` is an
  -- exception.
  unfoldable pub show_fields :
      (Text → Option Property) → List Text → Format → Option (List (Text × Shown R))
  unfolding show_value
  show_fields read [] format = some []
  show_fields read (key ∷ keys) format =
      let later = show_fields read keys format in
      elim (show_value format (elim (read key) [ none ↦ undefined | some v ↦ v ])) [
        | none ↦ none
        | some s ↦ elim later [ none ↦ none | some list ↦ some ((key, s) ∷ list) ]
      ]
