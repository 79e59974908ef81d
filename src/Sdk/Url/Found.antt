-- ===== src/Sdk/Url/Found.antt =====
-- Fields of a query that are set one after the other: the last value of a name is found.
use douyin_live.Prelude.{
  ◌≡◌, refl, sym, ◌∙◌, ap, Bool, true, false, List, [], ◌∷◌, Option, none, some, if◌then◌else◌,
  Bool-cases, inl, inr,
}
use douyin_live.Sdk.Text.{Text, same_text, same_text_refl, same_text_sound}
use douyin_live.Sdk.Url.{Fields, set_field, find_field}

abbrev pub Param : Type 0
Param = Text × Text

-- The last value of a name.
abbrev pub last_value : Text → List Param → Option Text
last_value name [] = none
last_value name (p ∷ params) = elim (last_value name params) [
  | some value ↦ some value
  | none ↦ if same_text name p.0 then some p.1 else none
]

both : (name key other : Text) → same_text key other ≡ false → name ≡ other → name ≡ key → ⊥
both name key other apart e k =
    let same : key ≡ other = sym k ∙ e in
    let no : true ≡ false = sym (same_text_refl key) ∙ (ap (same_text key) same ∙ apart) in
    absurd (cc)

pub find_field-set_field :
    (name key : Text) (value : Option Text) (fields : Fields)
    → find_field name (set_field key value fields)
      ≡ (if same_text name key then some value else find_field name fields)
unfolding find_field set_field
find_field-set_field name key value [] = refl
find_field-set_field name key value (f ∷ fields) = elim (Bool-cases (same_text key f.0)) [
  | inl same ↦
      let at : same_text name key ≡ same_text name f.0 =
        ap (same_text name) (same_text_sound key f.0 same) in
      rw (same, at)
        (elim (Bool-cases (same_text name f.0)) [
          | inl here ↦ rw here refl
          | inr there ↦ rw there refl
        ])
  | inr other ↦
      rw (other, find_field-set_field name key value fields)
        (elim (Bool-cases (same_text name f.0)) [
          | inr there ↦ rw there refl
          | inl here ↦ elim (Bool-cases (same_text name key)) [
            | inr apart ↦ rw (here, apart) refl
            | inl too ↦ absurd (
                both name key f.0 other (same_text_sound name f.0 here)
                  (same_text_sound name key too))
          ]
        ])
]

abbrev pub or_found : Option Text → Option (Option Text) → Option (Option Text)
or_found (some value) other = some (some value)
or_found none other = other

pub or_found_lem :
    (found : Option Text) (b : Bool) (value : Text) (other : Option (Option Text))
    → or_found found (if b then some (some value) else other)
      ≡ or_found (elim found [ some v ↦ some v | none ↦ if b then some value else none ]) other
or_found_lem (some v) b value other = refl
or_found_lem none true value other = refl
or_found_lem none false value other = refl
