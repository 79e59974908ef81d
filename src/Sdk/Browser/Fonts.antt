-- ===== src/Sdk/Browser/Fonts.antt =====
-- jsScript/webmssdk.js, lines 4926 to 4971: which of 29 fonts are installed. The size that the
-- document gives to a test text in a font family is a parameter.
mod Bits
mod Tests
use douyin_live.Prelude.{
  ℕ, suc, ◌+◌, ◌-◌, ◌/◌, ◌%◌, ◌^◌, Bool, true, false, not, ◌&&◌, ◌||◌, List, [], ◌∷◌, ◌++◌, map,
  ltb, ◌==◌, if◌then◌else◌, bit_or, zero,
}
use douyin_live.Sdk.Text.{Text, codes}

pub record Size : Type 0 where
  pub width : ℕ
  pub height : ℕ

abbrev pub generic_fonts : List Text
generic_fonts = codes "monospace" ∷ codes "sans-serif" ∷ codes "serif" ∷ []

abbrev pub fonts : List Text
fonts =
    codes "Trebuchet MS"
    ∷ codes "Wingdings"
    ∷ codes "Sylfaen"
    ∷ codes "Segoe UI"
    ∷ codes "Constantia"
    ∷ codes "SimSun-ExtB"
    ∷ codes "MT Extra"
    ∷ codes "Gulim"
    ∷ codes "Leelawadee"
    ∷ codes "Tunga"
    ∷ codes "Meiryo"
    ∷ codes "Vrinda"
    ∷ codes "CordiaUPC"
    ∷ codes "Aparajita"
    ∷ codes "IrisUPC"
    ∷ codes "Palatino"
    ∷ codes "Colonna MT"
    ∷ codes "Playbill"
    ∷ codes "Jokerman"
    ∷ codes "Parchment"
    ∷ codes "MS Outlook"
    ∷ codes "Tw Cen MT"
    ∷ codes "OPTIMA"
    ∷ codes "Futura"
    ∷ codes "AVENIR"
    ∷ codes "Arial Hebrew"
    ∷ codes "Savoye LET"
    ∷ codes "Castellar"
    ∷ codes "MYRIAD PRO"
    ∷ []

-- `offsetWidth !== … || offsetHeight !== …`
unfoldable pub differs : Size → Size → Bool
differs a b = not (a.width == b.width) || not (a.height == b.height)

-- `1 << i` for the 32-bit integers of JavaScript.
abbrev pub bit : ℕ → ℕ
bit i = 2 ^ (i % 32) % 2 ^ 32

-- A digit of `toString(16)`.
abbrev pub hex_digit : ℕ → ℕ
hex_digit d = if ltb d 10 then b'0' + d else d - 10 + b'a'

-- The digits of a number below `16 ^ rounds`, before `text`.
unfoldable pub hex_from : ℕ → ℕ → Text → Text
hex_from zero n text = text
hex_from (suc rounds) n text =
    let rest = hex_from rounds (n / 16) (hex_digit (n % 16) ∷ text) in
    if ltb n 16 then hex_digit n ∷ text else rest

-- `toString(16)` of a number below 2 ^ 32.
unfoldable pub hex_text : ℕ → Text
unfolding hex_from
hex_text n = hex_from 8 n []

module _ (measure : Text → Size) where
  -- The loop over the generic fonts ends at the first difference.
  unfoldable pub is_installed : Text → List Text → Bool
  unfolding differs
  is_installed font [] = false
  is_installed font (generic ∷ others) =
      differs (measure (font ++ codes "," ++ generic)) (measure generic) || is_installed font others

  -- The loop over the fonts: the number of the first of them, and the number so far.
  unfoldable pub add_fonts : ℕ → ℕ → List Text → ℕ
  unfolding is_installed
  add_fonts i mask [] = mask
  add_fonts i mask (font ∷ later) =
      add_fonts (suc i)
        (if is_installed font generic_fonts && ltb i 30 then bit_or mask (bit i) else mask) later

  -- `_0x4f323e`, for a page that may have no body yet.
  unfoldable pub fonts_text : Bool → Text
  unfolding add_fonts hex_text
  fonts_text false = codes "0"
  fonts_text true = hex_text (add_fonts 0 0 fonts)
