-- ===== src/Sdk/Settings.antt =====
-- jsScript/webmssdk.js, lines 6190 to 6224, 6782 to 6790, 6867 to 6880, 6899 to 6914 and 6933 to
-- 6968: what the script is configured with, and what it finds out once about the browser. `new
-- RegExp` with a replacement and `trim` are parameters.
pub mod Order
mod Tests
use douyin_live.Prelude.{
  ℕ, zero, suc, ◌+◌, Bool, true, false, not, ◌||◌, List, [], ◌∷◌, ◌++◌, Option, none, some,
  if◌then◌else◌, ◌==◌,
}
use douyin_live.Sdk.Text.{Text, codes, same_text}
use douyin_live.Sdk.Strings.{split_at}
use douyin_live.Sdk.Url.{key_of, value_of}
use douyin_live.Sdk.Requests.{Rule}
use douyin_live.Sdk.Storage.{Web, Area, absent, blocked, open_area}

pub record Settings : Type 0 where
  -- `_enablePathListRegex` and `_urlRewriteRules`
  pub enabled : List (Text → Bool)
  pub rules : List Rule
  pub ttwid : Text
  pub tt_webid : Text
  pub tt_webid_v2 : Text
  pub test_id : Option Text

-- `_0x59992f`: an empty pattern is passed over.
unfoldable pub add_paths :
    (Text → Text → Bool) → List Text → List (Text → Bool) → List (Text → Bool)
add_paths regex [] enabled = enabled
add_paths regex (path ∷ paths) enabled =
    add_paths regex paths (elim path [ [] ↦ enabled | c ∷ p ↦ enabled ++ regex (c ∷ p) ∷ [] ])

-- `_0x59d7a1`: patterns with their replacements, if there are any.
unfoldable pub add_rules :
    (Text → Text → Rule) → Option (List (Text × Text)) → List Rule → List Rule
add_rules rule none rules = rules
add_rules rule (some []) rules = rules
add_rules rule (some (p ∷ pairs)) rules = add_rules rule (some pairs) (rules ++ rule p.0 p.1 ∷ [])

-- A value that is neither undefined nor empty takes the place of the old one.
unfoldable pub given_or : Option Text → Text → Text
given_or none old = old
given_or (some []) old = old
given_or (some (c ∷ text)) old = c ∷ text

unfoldable pub set_ttwid : Option Text → Settings → Settings
unfolding given_or
set_ttwid value s = record s { ttwid = given_or value s.ttwid }

unfoldable pub set_tt_webid : Option Text → Settings → Settings
unfolding given_or
set_tt_webid value s = record s { tt_webid = given_or value s.tt_webid }

unfoldable pub set_tt_webid_v2 : Option Text → Settings → Settings
unfolding given_or
set_tt_webid_v2 value s = record s { tt_webid_v2 = given_or value s.tt_webid_v2 }

-- The loop of `_0x5b850b`: the first part of the cookie with that name, `none` if there is none. It
-- may hold undefined.
unfoldable pub find_test_id : (Text → Text) → List Text → Option (Option Text)
unfolding key_of value_of
find_test_id trim [] = none
find_test_id trim (part ∷ parts) =
    let later = find_test_id trim parts in
    if same_text (codes "__ac_testid") (trim (key_of part)) then some (value_of part) else later

-- `_0x5b850b`, from `document.cookie`.
unfoldable pub read_test_id : (Text → Text) → Text → Settings → Settings
unfolding find_test_id
read_test_id trim cookie s = elim (find_test_id trim (split_at (λ c. c == b';') cookie)) [
  | none ↦ s
  | some value ↦ record s { test_id = value }
]

-- The options of a region; `boe` and `dev` are truthy or not.
pub record RegionOptions : Type 0 where
  pub boe : Bool
  pub dev : Bool
  pub boe_host : Text
  pub region : Text

pub record RegionConf : Type 0 where
  pub host : Text
  pub path_list : List Text
  pub report_url : Text

abbrev pub path_list : List Text
path_list = codes "/web/report" ∷ []

-- The table of hosts; for another region there is an exception.
unfoldable pub host_of : Text → Option Text
host_of region =
    if same_text region (codes "cn") then some (codes "https://mssdk.bytedance.com") else none

-- `_0x43f5a3`
unfoldable pub region_conf : RegionOptions → Option RegionConf
unfolding host_of
region_conf options =
    elim (if options.boe || options.dev then some options.boe_host else host_of options.region) [
      | none ↦ none
      | some host ↦
          some (record {
            host = host;
            path_list = path_list;
            report_url = host ++ codes "/web/report";
          })
    ]

-- The names of the event and of the state of visibility, by the property that the document has:
-- `_0x4de7ef`. With none of them both stay undefined.
unfoldable pub visibility_names : (Text → Bool) → Option (Text × Text)
visibility_names has =
    if has (codes "hidden")
    then some (codes "visibilitychange", codes "visibilityState")
    else if has (codes "mozHidden")
    then some (codes "mozvisibilitychange", codes "mozVisibilityState")
    else if has (codes "msHidden")
    then some (codes "msvisibilitychange", codes "msVisibilityState")
    else if has (codes "webkitHidden")
    then some (codes "webkitvisibilitychange", codes "webkitVisibilityState")
    else none

-- The digits from 2 to 9 for which a control can be made: the loop of `_0x75957`.
unfoldable pub first_version : (Text → Bool) → ℕ → ℕ → Option Text
first_version makes zero digit = none
first_version makes (suc left) digit =
    let later = first_version makes left (suc digit) in
    if makes (codes "PDF.PdfCtrl." ++ (b'0' + digit) ∷ [])
    then some ((b'0' + digit) ∷ [])
    else later

-- `_0x75957`, from the controls that can be made, if the window has `ActiveXObject`.
unfoldable pub pdf_version : Option (Text → Bool) → Text
unfolding first_version
pdf_version none = codes "0"
pdf_version (some makes) = elim (first_version makes 8 2) [
  | some version ↦ version
  | none ↦
      if makes (codes "PDF.PdfCtrl.1")
      then codes "4"
      else if makes (codes "AcroPDF.PDF.1")
      then codes "7"
      else codes "0"
]

abbrev pub probe : Text
probe = codes "__web_idontknowwhyiwriteit__"

-- `_0x1f01ce`: whether an area takes an item, and the area after it.
unfoldable pub probe_area : {S J : Type 0} → Web S J → Area S → Bool × Area S
probe_area web absent = (false, absent)
probe_area web blocked = (false, blocked)
probe_area web (open_area s) = elim (web.set_item probe probe s) [
  | none ↦ (false, open_area s)
  | some s' ↦ (true, open_area (web.drop_item probe s'))
]
