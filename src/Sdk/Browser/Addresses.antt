-- ===== src/Sdk/Browser/Addresses.antt =====
-- jsScript/webmssdk.js, lines 4987 to 5042: the network addresses of the device, from the
-- candidates that a peer connection names one after the other. The browser's test of a candidate
-- for an address (a regular expression) is a parameter. A promise keeps its first answer.
mod Distinct
mod Tests
use douyin_live.Prelude.{
  Bool, true, false, ◌||◌, List, [], ◌∷◌, ◌++◌, Option, none, some, if◌then◌else◌,
}
use douyin_live.Sdk.Text.{Text, codes, same_text}
use douyin_live.Sdk.Strings.{join_with}

pub record Gathering : Type 0 where
  pub found : List Text
  pub answer : Option Text

-- What the connection reports: a candidate, or one that is missing or empty.
pub data Report : Type 0 where
  candidate : Text → Report
  no_candidate : Report

-- `-1 !== list.indexOf(text)`
unfoldable pub has_text : Text → List Text → Bool
has_text text [] = false
has_text text (t ∷ list) = same_text text t || has_text text list

unfoldable pub answer_with : Text → Gathering → Gathering
answer_with text g = record g { answer = elim g.answer [ none ↦ some text | some t ↦ some t ] }

unfoldable pub add_address : Text → List Text → List Text
unfolding has_text
add_address address found = if has_text address found then found else found ++ address ∷ []

module _ (address_of : Text → Option Text) where
  -- `onicecandidate`
  unfoldable pub on_candidate : Gathering → Report → Gathering
  unfolding answer_with add_address
  on_candidate g no_candidate = answer_with (join_with (codes ",") g.found) g
  on_candidate g (candidate []) = answer_with (join_with (codes ",") g.found) g
  on_candidate g (candidate (c ∷ text)) = elim (address_of (c ∷ text)) [
    | none ↦ g
    | some address ↦ record g { found = add_address address g.found }
  ]

  unfoldable pub on_candidates : Gathering → List Report → Gathering
  unfolding on_candidate
  on_candidates g [] = g
  on_candidates g (r ∷ reports) = on_candidates (on_candidate g r) reports

-- The start: whether the page answers at once with an empty text (in a small program of WeChat or
-- in the browser of vivo).
unfoldable pub begin_gathering : Bool → Gathering
begin_gathering early = record { found = []; answer = if early then some [] else none }

-- `_0x5bbaf0`: where no connection can be made, the answer is an empty text too.
unfoldable pub gather : (Text → Option Text) → Bool → Bool → List Report → Option Text
unfolding begin_gathering on_candidates answer_with
gather address_of early false reports = (answer_with [] (begin_gathering early)).answer
gather address_of early true reports =
    (on_candidates address_of (begin_gathering early) reports).answer
