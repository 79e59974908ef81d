-- ===== src/Sdk/Storage.antt =====
-- jsScript/webmssdk.js, lines 3628 to 3667, 4432 to 4450, 4776 to 4804 and 5474 to 5497: items in
-- the storages of the browser, its cookies, and a switch that is stored as an encrypted word. The
-- storages and the cookies belong to the browser, so their operations are parameters. A storage
-- that is `blocked` throws when it is read from the window, and a write may throw when the storage
-- is full; `try` ends the rest of the operation.
pub mod Items
pub mod Cookies
pub mod Switch
mod Tests
use douyin_live.Prelude.Result.{ok, err}
use douyin_live.Prelude.{
  ℕ, Bool, true, false, ◌||◌, List, [], ◌∷◌, ◌++◌, Option, none, some, ◌==◌, if◌then◌else◌, take,
  drop,
}
use douyin_live.Sdk.Text.{Text, codes, same_text}
use douyin_live.Sdk.Base64
use douyin_live.Sdk.Cipher.{decrypt_text}
use douyin_live.Sdk.Strings.{split_at, strip_start}

pub data Area (S : Type 0) : Type 0 where
  absent blocked : Area S
  open_area : S → Area S

pub record Page (S J : Type 0) : Type 0 where
  pub session : Area S
  pub local : Area S
  pub jar : J

pub record Web (S J : Type 0) : Type 0 where
  pub get_item : Text → S → Option Text
  -- `none` is an exception.
  pub set_item : Text → Text → S → Option S
  pub drop_item : Text → S → S
  -- `document.cookie`, read (`none` is an exception) and written.
  pub cookies : J → Option Text
  pub set_cookie : Text → J → J
  -- The time a week from now, as text.
  pub in_a_week : Text

unfoldable pub trim_spaces : Text → Text
trim_spaces [] = []
trim_spaces (c ∷ text) = let rest = trim_spaces text in if c == b' ' then rest else c ∷ text

unfoldable pub ends_cookie : ℕ → Bool
ends_cookie c = (c == b';') || (c == b'&')

-- The loop of `_0x598972`.
unfoldable pub find_part : Text → List Text → Option Text
unfolding trim_spaces
find_part start [] = none
find_part start (part ∷ parts) =
    let later = find_part start parts in
    elim (strip_start start (trim_spaces part)) [ none ↦ later | some value ↦ some value ]

-- `_0x598972`, with `none` for undefined.
unfoldable pub find_cookie : Text → Text → Option Text
unfolding find_part ends_cookie
find_cookie name text = find_part (name ++ codes "=") (split_at ends_cookie text)

abbrev pub expired : Text
expired = codes "=; expires=Mon, 20 Sep 2010 00:00:00 UTC; path=/;"

module _ {S J : Type 0} (web : Web S J) where
  unfoldable pub read_cookie : Text → Page S J → Option Text
  read_cookie key page = elim (web.cookies page.jar) [
    | none ↦ some []
    | some text ↦ find_cookie key text
  ]

  -- An empty item counts as none.
  unfoldable pub read_local : Text → Page S J → Option Text
  unfolding read_cookie
  read_local key page = elim page.local [
    | blocked ↦ some []
    | absent ↦ read_cookie key page
    | open_area s ↦ elim (web.get_item key s) [
      | none ↦ read_cookie key page
      | some [] ↦ read_cookie key page
      | some (c ∷ value) ↦ some (c ∷ value)
    ]
  ]

  -- `_0x24dc34`
  unfoldable pub read_item : Text → Page S J → Option Text
  unfolding read_local
  read_item key page = elim page.session [
    | blocked ↦ some []
    | absent ↦ read_local key page
    | open_area s ↦ elim (web.get_item key s) [
      | none ↦ read_local key page
      | some [] ↦ read_local key page
      | some (c ∷ value) ↦ some (c ∷ value)
    ]
  ]

  unfoldable pub write_cookie : Text → Text → Page S J → Page S J
  write_cookie key value page =
      let cleared = web.set_cookie (key ++ expired) page.jar in
      record page {
        jar =
            web.set_cookie
              (key
                ++ (codes "="
                    ++ (value ++ (codes "; expires=" ++ (web.in_a_week ++ codes "; path=/;")))))
              cleared;
      }

  unfoldable pub write_local : Text → Text → Page S J → Page S J
  unfolding write_cookie
  write_local key value page = elim page.local [
    | blocked ↦ page
    | absent ↦ write_cookie key value page
    | open_area s ↦ elim (web.set_item key value s) [
      | none ↦ page
      | some s' ↦ write_cookie key value (record page { local = open_area s' })
    ]
  ]

  -- `_0x1f42cb`
  unfoldable pub write_item : Text → Text → Page S J → Page S J
  unfolding write_local
  write_item key value page = elim page.session [
    | blocked ↦ page
    | absent ↦ write_local key value page
    | open_area s ↦ elim (web.set_item key value s) [
      | none ↦ page
      | some s' ↦ write_local key value (record page { session = open_area s' })
    ]
  ]

  unfoldable pub remove_local : Text → Page S J → Page S J
  remove_local key page = elim page.local [
    | blocked ↦ page
    | absent ↦ record page { jar = web.set_cookie (key ++ expired) page.jar }
    | open_area s ↦ record page {
      local = open_area (web.drop_item key s);
      jar = web.set_cookie (key ++ expired) page.jar;
    }
  ]

  -- `_0x2ecc5a`
  unfoldable pub remove_item : Text → Page S J → Page S J
  unfolding remove_local
  remove_item key page = elim page.session [
    | blocked ↦ page
    | absent ↦ remove_local key page
    | open_area s ↦ remove_local key (record page { session = open_area (web.drop_item key s) })
  ]

  -- `_0x4a2daf`
  unfoldable pub save : Text → Text → Page S J → Page S J
  save key value page = elim page.local [
    | blocked ↦ page
    | absent ↦ page
    | open_area s ↦ elim (web.set_item key value s) [
      | none ↦ page
      | some s' ↦ record page { local = open_area s' }
    ]
  ]

  -- `_0x34f60a`
  unfoldable pub forget : Text → Page S J → Page S J
  forget key page = elim page.local [
    | blocked ↦ page
    | absent ↦ page
    | open_area s ↦ record page { local = open_area (web.drop_item key s) }
  ]

  -- `_0x3d13cf`
  unfoldable pub load : Text → Page S J → Option Text
  load key page = elim page.local [
    | blocked ↦ none
    | absent ↦ none
    | open_area s ↦ web.get_item key s
  ]

  -- The item that `_0x39dfe4` finds: the local one if that storage can be read. An exception keeps
  -- what there is, and `null.getItem` of a missing storage is one.
  unfoldable pub switch_item : Text → Page S J → Option Text
  switch_item key page = elim page.session [
    | blocked ↦ none
    | absent ↦ elim page.local [ blocked ↦ none | absent ↦ none | open_area t ↦ web.get_item key t ]
    | open_area s ↦ elim page.local [
      | blocked ↦ web.get_item key s
      | absent ↦ web.get_item key s
      | open_area t ↦ web.get_item key t
    ]
  ]

-- The first eight characters are the key.
unfoldable pub word_is_on : Text → Bool
word_is_on item = elim (decrypt_text (Base64.decode (drop 8 item)) (take 8 item)) [
  | ok word ↦ same_text word (codes "on")
  | err e ↦ false
]

abbrev pub switch_key : Text
switch_key = codes "_byted_param_sw"

-- `_0x39dfe4`. Any word but `on`, also one that is no cipher text, means off.
unfoldable pub is_switched_on : {S J : Type 0} → Web S J → Page S J → Bool
unfolding switch_item word_is_on
is_switched_on web page = elim (switch_item web switch_key page) [
  | none ↦ false
  | some [] ↦ false
  | some (c ∷ item) ↦ word_is_on (c ∷ item)
]

-- `_0x4bae98`, `_0x275e5a` and `_0x4fdb47`: whether the window has an area. One that throws counts.
unfoldable pub has_area : {S : Type 0} → Area S → Bool
has_area absent = false
has_area blocked = true
has_area (open_area s) = true

-- `_0x5af46a` of a truth value.
unfoldable pub flag_text : Bool → Text
flag_text b = if b then codes "1" else codes "0"

-- `_0x1afbc2`, from the area of the database and the two storages.
unfoldable pub area_flags : {D S J : Type 0} → Area D → Page S J → Text
unfolding has_area flag_text
area_flags database page =
    flag_text (has_area database)
    ++ (flag_text (has_area page.local) ++ flag_text (has_area page.session))
