-- ===== src/Sdk/Text.antt =====
-- JavaScript strings as lists of UTF-16 code units.
use Prim.Native.Char.{code}
use Prim.Native.String.{String}
use douyin_live.Prelude.{
  ℕ, ◌%◌, ◌^◌, ◌<◌, ◌≡◌, refl, ap₂, Bool, true, false, ◌&&◌, ◌==◌, List, [], ◌∷◌, All, arith,
}

abbrev pub Text : Type 0
Text = List ℕ

-- Every entry is a code unit.
abbrev pub IsText : Text → Type 0
IsText s = All (λ c. c < 2 ^ 16) s

-- Every entry is a byte.
abbrev pub IsBytes : Text → Type 0
IsBytes s = All (λ c. c < 2 ^ 8) s

-- `String.fromCharCode` of one number.
abbrev pub char_unit : ℕ → ℕ
char_unit n = n % 2 ^ 16

-- The code units of a literal (the script's literals are ASCII).
abbrev pub codes : String → Text
codes String.[] = []
codes (String.◌∷◌ c s) = code c ∷ codes s

-- `===` of two strings.
unfoldable pub same_text : Text → Text → Bool
same_text [] [] = true
same_text (a ∷ s) (b ∷ t) = a == b && same_text s t
same_text _ _ = false

pub same_text_refl : (s : Text) → same_text s s ≡ true
unfolding same_text
same_text_refl [] = refl
same_text_refl (c ∷ s) = ground (arith, same_text_refl s)

pub same_text_sound : (s t : Text) → same_text s t ≡ true → s ≡ t
unfolding same_text
same_text_sound [] [] h = refl
same_text_sound [] (b ∷ t) h = cc
same_text_sound (a ∷ s) [] h = cc
same_text_sound (a ∷ s) (b ∷ t) h = ap₂ ◌∷◌ (ground arith) (same_text_sound s t (ground arith))
