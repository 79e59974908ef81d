-- ===== src/Sdk/Hex.antt =====
-- jsScript/webmssdk.js, lines 3699 to 3716: the hexadecimal coding of bytes, with its two tables.
pub mod RoundTrip
mod Tests
use douyin_live.Prelude.{
  ℕ, ◌-◌, ◌*◌, ◌/◌, ◌%◌, ◌^◌, ◌≡◌, Bool, true, ◌&&◌, ◌||◌, List, [], ◌∷◌, leb, if◌then◌else◌,
  get_or, bit_and, bit_or, All,
}
use douyin_live.Sdk.Text.{Text, codes}

abbrev pub hex_digits : Text
hex_digits = codes "0123456789abcdef"

-- The table for a byte: two digits.
unfoldable pub hex_high : ℕ → ℕ
hex_high b = get_or hex_digits (bit_and (b / 2 ^ 4) 15) 0

unfoldable pub hex_low : ℕ → ℕ
hex_low b = get_or hex_digits (bit_and 15 b) 0

unfoldable pub encode : List ℕ → Text
encode [] = []
encode (b ∷ bytes) = hex_high b ∷ hex_low b ∷ encode bytes

-- The table for a character. A character that is no digit has no entry, which counts as 0.
unfoldable pub hex_value : ℕ → ℕ
hex_value c = if leb 48 c && leb c 57 then c - 48 else if leb 97 c && leb c 102 then c - 87 else 0

-- Pairs of characters; the result is stored in bytes. A last single character is dropped.
unfoldable pub decode : Text → List ℕ
decode (c ∷ d ∷ text) = bit_or (hex_value c * 2 ^ 4) (hex_value d) % 2 ^ 8 ∷ decode text
decode _ = []

-- A digit as the coding writes it: decimal or lower-case.
abbrev pub is_hex_digit : ℕ → Bool
is_hex_digit c = (leb 48 c && leb c 57) || (leb 97 c && leb c 102)

abbrev pub IsHex : Text → Type 0
IsHex text = All (λ c. is_hex_digit c ≡ true) text
