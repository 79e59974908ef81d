-- ===== src/Sdk/Url.antt =====
-- jsScript/webmssdk.js, lines 4730 to 4748 and 6460 to 6489: the path of a URL, its query as an
-- object, and a URL with more parameters or with its quotes escaped. An object is the list of its
-- fields in the order in which they were first set; it is only looked up. (Setting `__proto__` sets
-- no field of a JavaScript object; a field of that name is not considered.) `decodeURIComponent`
-- and `encodeURI` are parameters, with `none` for their exception.
pub mod Found
pub mod Params
pub mod Parts
mod Tests
use douyin_live.Prelude.{
  ℕ, zero, suc, Bool, true, false, ◌&&◌, ◌||◌, List, [], ◌∷◌, ◌++◌, Option, none, some, ◌==◌, leb,
  if◌then◌else◌, take, drop, map,
}
use douyin_live.Sdk.Text.{Text, codes, same_text}
use douyin_live.Sdk.Strings.{split_at, join_with, strip_start, index_of}

-- `(http:\/\/|https:\/\/|\/\/)?` of `_0x53f850` at the start of a text.
unfoldable pub drop_scheme : Text → Text
drop_scheme text = elim (strip_start (codes "http://") text) [
  | some rest ↦ rest
  | none ↦ elim (strip_start (codes "https://") text) [
    | some rest ↦ rest
    | none ↦ elim (strip_start (codes "//") text) [ some rest ↦ rest | none ↦ text ]
  ]
]

-- `[^\/]*`
unfoldable pub drop_host : Text → Text
drop_host [] = []
drop_host (c ∷ text) = let rest = drop_host text in if c == b'/' then c ∷ text else rest

-- `substr` up to a `?`, if there is one.
unfoldable pub before_query : Text → Text
before_query text = elim (index_of b'?' text) [ none ↦ text | some i ↦ take i text ]

unfoldable pub or_root : Text → Text
or_root [] = codes "/"
or_root (c ∷ text) = c ∷ text

-- `_0x53f850`
unfoldable pub path_of : Text → Text
unfolding drop_scheme drop_host before_query or_root
path_of url = or_root (before_query (drop_host (drop_scheme url)))

-- `\w`
unfoldable pub is_word_unit : ℕ → Bool
is_word_unit c =
    (leb b'a' c && leb c b'z')
    || (leb b'A' c && leb c b'Z')
    || (leb b'0' c && leb c b'9')
    || (c == b'_')

-- `.` matches the other units.
unfoldable pub ends_line : ℕ → Bool
ends_line c = (c == 10) || (c == 13) || (c == 0x2028) || (c == 0x2029)

unfoldable pub line_of : Text → Text
line_of [] = []
line_of (c ∷ text) = let rest = line_of text in if ends_line c then [] else c ∷ rest

-- Whether `\w*=` matches at the start.
unfoldable pub assigns : Text → Bool
assigns [] = false
assigns (c ∷ text) = let rest = assigns text in if c == b'=' then true else is_word_unit c && rest

-- What `(\w+=.*&?)*` matches at the start: `.*` takes the rest of the line.
unfoldable pub matched : Text → Text
unfolding assigns line_of
matched [] = []
matched (c ∷ text) = if is_word_unit c && assigns text then line_of (c ∷ text) else []

-- What `_0x288415` gives: the text behind the first `?`.
unfoldable pub query_of : Text → Text
query_of url = elim (index_of b'?' url) [ none ↦ [] | some i ↦ drop (suc i) url ]

-- A field holds undefined where a part has no `=`.
abbrev pub Fields : Type 0
Fields = List (Text × Option Text)

unfoldable pub set_field : Text → Option Text → Fields → Fields
set_field key value [] = (key, value) ∷ []
set_field key value (f ∷ fields) =
    let rest = set_field key value fields in
    if same_text key f.0 then (f.0, value) ∷ fields else f ∷ rest

unfoldable pub find_field : Text → Fields → Option (Option Text)
find_field key [] = none
find_field key (f ∷ fields) =
    let rest = find_field key fields in if same_text key f.0 then some f.1 else rest

unfoldable pub key_of : Text → Text
key_of part = elim (split_at (λ c. c == b'=') part) [ [] ↦ [] | key ∷ more ↦ key ]

unfoldable pub value_of : Text → Option Text
value_of part = elim (split_at (λ c. c == b'=') part) [
  | [] ↦ none
  | key ∷ more ↦ elim more [ [] ↦ none | value ∷ rest ↦ some value ]
]

-- The loop of `_0x446110`, from the fields so far.
unfoldable pub set_parts : Fields → List Text → Fields
set_parts fields [] = fields
set_parts fields (part ∷ parts) = set_parts (set_field (key_of part) (value_of part) fields) parts

-- `_0x446110`
unfoldable pub parse_query : Text → Fields
unfolding matched set_parts query_of
parse_query url = elim (matched (query_of url)) [
  | [] ↦ []
  | c ∷ text ↦ set_parts [] (split_at (λ b. b == b'&') (c ∷ text))
]

-- The loop of `_0x1958a5`, over an array of keys and values in turn.
unfoldable pub param_text : List Text → Text
param_text [] = []
param_text (key ∷ []) = []
param_text (key ∷ value ∷ params) = b'&' ∷ (key ++ b'=' ∷ (value ++ param_text params))

-- `_0x1958a5`
unfoldable pub add_params : Text → List Text → Text
unfolding param_text
add_params url params = elim (param_text params) [
  | [] ↦ url
  | c ∷ text ↦ url ++ (elim (index_of b'?' url) [ none ↦ b'?' | some i ↦ b'&' ] ∷ text)
]

unfoldable pub escape_query : Text → Text
escape_query url = elim (index_of b'?' url) [
  | none ↦ url
  | some zero ↦ url
  | some (suc i) ↦
      take (suc (suc i)) url
      ++ join_with (codes "%27") (split_at (λ c. c == 0x27) (drop (suc (suc i)) url))
]

module _ (decode_component encode_uri : Text → Option Text) where
  unfoldable pub encoded_once : Text → Option Text
  encoded_once url = elim (decode_component url) [
    | none ↦ none
    | some plain ↦ if same_text plain url then encode_uri url else some url
  ]

  -- `_0x2b13af`, with `none` for an exception.
  unfoldable pub escape_quotes : Text → Option Text
  unfolding escape_query encoded_once
  escape_quotes url = elim (encoded_once url) [
    | none ↦ none
    | some coded ↦ some (escape_query coded)
  ]
