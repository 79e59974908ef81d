-- ===== src/Sdk/Profile/Tests.antt =====
-- Runs of the profile.
use douyin_live.Prelude.{◌≡◌, refl, true, false, [], ◌∷◌}
use douyin_live.Sdk.Text.{Text, codes}
use douyin_live.Sdk.Profile.{
  no_answer, text_answer, flag_answer, fill_answers, answers_text, profile_key,
}

filled :
    answers_text
      (fill_answers
        ((record { p = true; r = no_answer }) ∷ (record { p = false; r = flag_answer true }) ∷ [])
        (text_answer (codes "x") ∷ []))
      (codes "7")
    ≡ codes "x^^1^^7"
unfolding answers_text fill_answers
filled = refl

abbrev id : Text
id = codes "abc0defghijklmno"

key : profile_key id ≡ codes "defghi"
unfolding profile_key
key = refl
