-- ===== src/Sdk/Requests.antt =====
-- jsScript/webmssdk.js, lines 6449 to 6458, 6491 to 6502 and 6672 to 6734: what is decided and read
-- for a request of the page. Regular expressions and their replacement, `toLowerCase`,
-- `decodeURIComponent` and `JSON.parse` are parameters, the last two with `none` for their
-- exception. The configuration is what the script keeps of it.
pub mod Forms
pub mod Rules
mod Tests
use douyin_live.Prelude.{
  ℕ, Bool, true, false, not, ◌&&◌, ◌||◌, List, [], ◌∷◌, ◌++◌, Option, none, some, if◌then◌else◌,
  ◌==◌,
}
use douyin_live.Sdk.Text.{Text, codes, same_text}
use douyin_live.Sdk.Strings.{split_at, contains}
use douyin_live.Sdk.Url.{Fields, set_field, key_of, value_of, escape_quotes}

-- `regionConf.host`
pub record Region : Type 0 where
  pub host : Option Text

pub data Channel : Type 0 where
  sec asgw : Channel

-- `host && -1 !== url.indexOf(host)`
unfoldable pub has_host : Option Text → Text → Bool
has_host none url = false
has_host (some []) url = false
has_host (some (c ∷ host)) url = contains (c ∷ host) url

-- `_0x25a792`
unfoldable pub channel : Option Region → Text → Channel
unfolding has_host
channel none url = asgw
channel (some region) url = if has_host region.host url then sec else asgw

-- `_0xd287a1`, with `none` for the exception when there is no region.
unfoldable pub is_own_url : Option Region → Text → Option Bool
unfolding has_host
is_own_url none url = none
is_own_url (some region) url = elim url [
  | [] ↦ some false
  | c ∷ rest ↦ some (has_host region.host (c ∷ rest))
]

-- `_0x6a7375`, whether a pattern of the list matches.
unfoldable pub is_enabled : List (Text → Bool) → Text → Bool
is_enabled [] url = false
is_enabled (test ∷ tests) url = let rest = is_enabled tests url in if test url then true else rest

abbrev pub form_type : Text
form_type = codes "application/x-www-form-urlencoded"

abbrev pub json_type : Text
json_type = codes "application/json"

-- `_0x7d8404`
unfoldable pub is_read_type : Text → Bool
is_read_type type_name = same_text form_type type_name || same_text json_type type_name

-- The headers of the options of a request: a `Headers` object, an array of pairs, or an object.
pub data HeaderInit : Type 0 where
  headers_object : Option Text → HeaderInit
  header_pairs : List (Text × Text) → HeaderInit
  header_fields : List (Text × Text) → HeaderInit

module _ (lower_case : Text → Text) where
  -- The first header of that name.
  unfoldable pub find_header : List (Text × Text) → Option Text
  find_header [] = none
  find_header (h ∷ headers) =
      let later = find_header headers in
      if same_text (codes "content-type") (lower_case h.0) then some h.1 else later

  unfoldable pub text_or_empty : Option Text → Text
  text_or_empty none = []
  text_or_empty (some text) = text

  -- `_0xb48e77` of a `Request`, by its header, or of a URL with options. An array without the
  -- header is then read as an object, whose keys are the indexes. `none` is undefined.
  unfoldable pub content_type : Option (Option Text) → Option HeaderInit → Option Text
  unfolding find_header text_or_empty
  content_type (some header) options = some (text_or_empty header)
  content_type none none = none
  content_type none (some (headers_object header)) = some (text_or_empty header)
  content_type none (some (header_pairs pairs)) = some (text_or_empty (find_header pairs))
  content_type none (some (header_fields fields)) = some (text_or_empty (find_header fields))

-- The body of the request that is signed, with the mark that its values are texts.
pub data Body (J : Type 0) : Type 0 where
  no_body : Body J
  form_body : Fields → Body J
  json_body : J → Body J

module _ {J : Type 0} (decode_component : Text → Option Text) (parse : Text → Option J) where
  -- `decodeURIComponent` of undefined is that word.
  unfoldable pub decoded_value : Text → Option Text
  unfolding value_of
  decoded_value part = elim (value_of part) [
    | none ↦ decode_component (codes "undefined")
    | some value ↦ decode_component value
  ]

  -- The loop of `_0x1294ff`; an exception ends it.
  unfoldable pub read_parts : Fields → List Text → Option Fields
  unfolding decoded_value key_of set_field
  read_parts fields [] = some fields
  read_parts fields (part ∷ parts) = elim (decoded_value part) [
    | none ↦ none
    | some value ↦ read_parts (set_field (key_of part) (some value) fields) parts
  ]

  -- `_0x1294ff`; no body is null or undefined.
  unfoldable pub body_of : Text → Option Text → Option (Body J)
  unfolding read_parts
  body_of type_name none = some no_body
  body_of type_name (some []) = some no_body
  body_of type_name (some (c ∷ text)) =
      if same_text form_type type_name
      then elim (read_parts [] (split_at (λ b. b == b'&') (c ∷ text))) [
        | none ↦ none
        | some fields ↦ some (form_body fields)
      ]
      else elim (parse (c ∷ text)) [ none ↦ none | some value ↦ some (json_body value) ]

pub record Rule : Type 0 where
  pub test : Text → Bool
  pub replace : Text → Text

-- The first rule whose pattern matches.
unfoldable pub apply_rules : List Rule → Text → Text
apply_rules [] url = url
apply_rules (rule ∷ rules) url =
    let rest = apply_rules rules url in if rule.test url then rule.replace url else rest

-- `_0x45e0e9`
unfoldable pub rewrite_url :
    (Text → Option Text) → (Text → Option Text) → List Rule → Text → Option Text
unfolding apply_rules escape_quotes
rewrite_url decode_component encode_uri rules url =
    escape_quotes decode_component encode_uri (apply_rules rules url)
