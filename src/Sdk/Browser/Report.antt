-- ===== src/Sdk/Browser/Report.antt =====
-- The objects that the script builds, as lists of named values, and `Object.assign` on them.
use douyin_live.Prelude.{
  ◌≡◌, refl, sym, ap, true, false, List, [], ◌∷◌, Option, none, some, if◌then◌else◌, ◌∙◌, inl, inr,
  Bool-cases, arith,
}
use douyin_live.Sdk.Text.{Text, same_text, same_text_sound}

abbrev pub Report : Type 0 → Type 0
Report V = List (Text × V)

module _ {V : Type 0} where
  -- `report[key] = value`: a new field comes last.
  unfoldable pub put_value : Text → V → Report V → Report V
  put_value key value [] = (key, value) ∷ []
  put_value key value (f ∷ report) =
      let rest = put_value key value report in
      if same_text key f.0 then (f.0, value) ∷ report else f ∷ rest

  -- `Object.assign(target, source)`
  unfoldable pub assign_all : Report V → Report V → Report V
  unfolding put_value
  assign_all target [] = target
  assign_all target (f ∷ source) = assign_all (put_value f.0 f.1 target) source

  unfoldable pub find_value : Text → Report V → Option V
  find_value key [] = none
  find_value key (f ∷ report) =
      let rest = find_value key report in if same_text key f.0 then some f.1 else rest

  -- The last value of a key.
  abbrev pub last_value : Text → Report V → Option V → Option V
  last_value key [] found = found
  last_value key (f ∷ report) found =
      last_value key report (if same_text key f.0 then some f.1 else found)

  find_value-put_value :
      (key name : Text) (value : V) (report : Report V)
      → find_value key (put_value name value report)
        ≡ (if same_text key name then some value else find_value key report)
  unfolding find_value put_value
  find_value-put_value key name value [] = refl
  find_value-put_value key name value (f ∷ report) = elim (Bool-cases (same_text name f.0)) [
    | inl same ↦ rw same (ground (arith, ap (same_text key) (same_text_sound name f.0 same)))
    | inr other ↦ elim (Bool-cases (same_text key f.0)) [
      | inl here ↦
          let away : same_text key name ≡ false = elim (Bool-cases (same_text key name)) [
            | inl both ↦
                let meet : same_text name f.0 ≡ true =
                  rw (sym (same_text_sound key name both)) here in
                cc
            | inr apart ↦ apart
          ] in
          rw (other, away) (ground arith)
      | inr there ↦ rw (other, there, find_value-put_value key name value report) refl
    ]
  ]

  pub find_value-assign_all :
      (key : Text) (target source : Report V)
      → find_value key (assign_all target source) ≡ last_value key source (find_value key target)
  unfolding assign_all
  find_value-assign_all key target [] = refl
  find_value-assign_all key target (f ∷ source) =
      find_value-assign_all key (put_value f.0 f.1 target) source
      ∙ ap (last_value key source) (find_value-put_value key f.0 f.1 target)
