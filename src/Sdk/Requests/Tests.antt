-- ===== src/Sdk/Requests/Tests.antt =====
-- Runs of the functions for requests, and their theorem at a concrete input.
use douyin_live.Prelude.{◌≡◌, refl, ℕ, List, [], ◌∷◌, Option, none, some}
use douyin_live.Sdk.Text.{Text, codes, same_text}
use douyin_live.Sdk.Strings.{split_at}
use douyin_live.Sdk.Url.{Fields, find_field}
use douyin_live.Sdk.Url.Found.{Param}
use douyin_live.Sdk.Requests.{header_pairs, content_type, form_type, json_type, form_body, body_of}
use douyin_live.Sdk.Requests.Forms.{form_text, body_of-form_text}

abbrev plain : Text → Option Text
plain text = some text

abbrev parse : Text → Option ℕ
parse text = none

-- The value of a field without a sign is the word that `decodeURIComponent` makes of undefined.
undefined_value :
    body_of plain parse form_type (some (codes "a&b=1"))
    ≡ some (form_body ((codes "a", some (codes "undefined")) ∷ (codes "b", some (codes "1")) ∷ []))
unfolding body_of split_at same_text
undefined_value = refl

-- In an array a header is found by its name, and without it the type is empty.
found_pair :
    content_type (λ t. t) none (some (header_pairs ((codes "content-type", json_type) ∷ [])))
    ≡ some json_type
unfolding content_type same_text
found_pair = refl

missing_pair : content_type (λ t. t) none (some (header_pairs [])) ≡ some []
unfolding content_type
missing_pair = refl

abbrev first_field : Param
first_field = (codes "a", codes "1")

abbrev fields : List Param
fields = (codes "b", codes "x") ∷ []

body_of-form_text_example :
    (result : Fields) × (body_of plain parse form_type
        (some (form_text {J = ℕ} (λ t. t) plain parse first_field fields))
      ≡ some (form_body result))
    × (find_field (codes "b") result ≡ some (some (codes "x")))
unfolding same_text
body_of-form_text_example =
    body_of-form_text (λ t. t) plain parse first_field fields (codes "b")
      (
        ((((refl, tt), (refl, tt)), refl, ((refl, tt), (refl, tt)))),
        ((((refl, tt), (refl, tt)), refl, ((refl, tt), (refl, tt))), tt),
      )
