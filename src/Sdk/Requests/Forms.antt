-- ===== src/Sdk/Requests/Forms.antt =====
-- A form that is sent as text is read back.
use douyin_live.Prelude.{
  ℕ, Bool, false, ◌≡◌, refl, ◌∙◌, ap, List, [], ◌∷◌, ◌++◌, append-nil, Option, none, some, All,
  All-append, map, ◌==◌,
}
use douyin_live.Sdk.Text.{Text, same_text, same_text_refl}
use douyin_live.Sdk.Strings.{split_at, Avoids, split_at-whole, split_at-append}
use douyin_live.Sdk.Url.{Fields, set_field, find_field, key_of, value_of}
use douyin_live.Sdk.Url.Found.{Param, last_value, find_field-set_field, or_found, or_found_lem}
use douyin_live.Sdk.Requests.{form_type, form_body, decoded_value, read_parts, body_of}

abbrev ends_part : ℕ → Bool
ends_part c = c == b'&'

abbrev ends_key : ℕ → Bool
ends_key c = c == b'='

-- The texts of the values are coded, those of the names are not: a name has no sign of the syntax.
abbrev pub IsName : Text → Type 0
IsName key = Avoids ends_part key × Avoids ends_key key

module _ {J : Type 0} (encode_component : Text → Text) (decode_component : Text → Option Text)
    (parse : Text → Option J) where
  abbrev entry : Param → Text
  entry p = p.0 ++ b'=' ∷ encode_component p.1

  abbrev more_text : List Param → Text
  more_text [] = []
  more_text (p ∷ fields) = b'&' ∷ (entry p ++ more_text fields)

  abbrev pub form_text : Param → List Param → Text
  form_text p fields = entry p ++ more_text fields

  -- The name has no sign of the syntax. The coding of the value has none and is decoded again.
  abbrev pub IsField : Param → Type 0
  IsField p =
      IsName p.0
      × (decode_component (encode_component p.1) ≡ some p.1)
      × IsName (encode_component p.1)

  entry-Avoids : (p : Param) → IsField p → Avoids ends_part (entry p)
  entry-Avoids p ((parts, keys), back, coded) =
      All-append (λ c. ends_part c ≡ false) p.0 (b'=' ∷ encode_component p.1) parts (refl, coded.0)

  split_entry :
      (p : Param) → IsField p → split_at ends_key (entry p) ≡ p.0 ∷ encode_component p.1 ∷ []
  split_entry p ((parts, keys), back, coded) =
      split_at-append ends_key p.0 b'=' (encode_component p.1) keys refl
      ∙ ap (λ l. p.0 ∷ l) (split_at-whole ends_key (encode_component p.1) coded.1)

  key_of-entry : (p : Param) → IsField p → key_of (entry p) ≡ p.0
  unfolding key_of
  key_of-entry p h = rw (key_of, split_entry p h) refl

  decoded_value-entry :
      (p : Param) → IsField p → decoded_value {J = J} decode_component parse (entry p) ≡ some p.1
  unfolding decoded_value value_of
  decoded_value-entry p h = rw (decoded_value, value_of, split_entry p h) h.1

  split_form :
      (p : Param) (fields : List Param)
      → IsField p
      → All IsField fields
      → split_at ends_part (form_text p fields) ≡ map entry (p ∷ fields)
  split_form p [] h all =
      ap (split_at ends_part) (append-nil (entry p))
      ∙ split_at-whole ends_part (entry p) (entry-Avoids p h)
  split_form p (q ∷ fields) h (next, all) =
      split_at-append ends_part (entry p) b'&' (form_text q fields) (entry-Avoids p h) refl
      ∙ ap (λ l. entry p ∷ l) (split_form q fields next all)

  -- The fields that are set one after the other.
  abbrev set_all : Fields → List Param → Fields
  set_all fields [] = fields
  set_all fields (p ∷ params) = set_all (set_field p.0 (some p.1) fields) params

  read_parts-entries :
      (fields : Fields) (params : List Param)
      → All IsField params
      → read_parts {J = J} decode_component parse fields (map entry params)
        ≡ some (set_all fields params)
  unfolding read_parts
  read_parts-entries fields [] all = refl
  read_parts-entries fields (p ∷ params) (h, all) =
      rw (read_parts, decoded_value-entry p h, key_of-entry p h)
        (read_parts-entries (set_field p.0 (some p.1) fields) params all)

  find_field-set_all :
      (name : Text) (fields : Fields) (params : List Param)
      → find_field name (set_all fields params)
        ≡ or_found (last_value name params) (find_field name fields)
  find_field-set_all name fields [] = refl
  find_field-set_all name fields (p ∷ params) =
      find_field-set_all name (set_field p.0 (some p.1) fields) params
      ∙ ap (or_found (last_value name params)) (find_field-set_field name p.0 (some p.1) fields)
      ∙ or_found_lem (last_value name params) (same_text name p.0) p.1 (find_field name fields)

  body_of-parts :
      (c : ℕ) (text : Text) (fields : Fields)
      → read_parts {J = J} decode_component parse [] (split_at ends_part (c ∷ text)) ≡ some fields
      → body_of {J = J} decode_component parse form_type (some (c ∷ text)) ≡ some (form_body fields)
  unfolding body_of
  body_of-parts c text fields e = rw (body_of, same_text_refl form_type, e) refl

  read_form :
      (p : Param) (params : List Param)
      → All IsField (p ∷ params)
      → body_of {J = J} decode_component parse form_type (some (form_text p params))
        ≡ some (form_body (set_all [] (p ∷ params)))
  read_form ([], value) params (one, all) = body_of-parts _ _ _ (
      ap (read_parts {J = J} decode_component parse []) (split_form ([], value) params one all)
      ∙ read_parts-entries [] (([], value) ∷ params) (one, all))
  read_form (c ∷ key, value) params (one, all) = body_of-parts _ _ _ (
      ap (read_parts {J = J} decode_component parse []) (split_form (c ∷ key, value) params one all)
      ∙ read_parts-entries [] ((c ∷ key, value) ∷ params) (one, all))

  -- The text of a form is read as fields that hold the last value of each name, and no others. The
  -- names have no `&` and no `=`, nor have the codings of the values, which decoding undoes.
  pub body_of-form_text :
      (p : Param) (params : List Param) (name : Text)
      → All IsField (p ∷ params)
      → (fields : Fields) × (body_of {J = J} decode_component parse form_type
            (some (form_text p params))
          ≡ some (form_body fields))
        × (find_field name fields ≡ or_found (last_value name (p ∷ params)) none)
  unfolding find_field
  body_of-form_text p params name all =
      (set_all [] (p ∷ params), read_form p params all, find_field-set_all name [] (p ∷ params))
