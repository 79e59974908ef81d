-- ===== src/Sdk/Base64.antt =====
-- jsScript/webmssdk.js, lines 4129 to 4174: the base-64 codings of the script. `_0x328bde` encodes
-- with a given alphabet, `_0x389396` with one of three named ones, and `_0xb5350b` decodes the
-- standard alphabet. A loop that steps through the text by three or four characters is a
-- recursion on the list.
pub mod Group
pub mod RoundTrip
mod Tests
use Prim.Native.String.{String}
use mathlib.Core.Option
use text.Mathlib.Text.{◌==◌ as str_eq}
use douyin_live.Prelude.{
  ℕ, zero, suc, ◌+◌, ◌-◌, ◌*◌, ◌/◌, ◌%◌, ◌^◌, Bool, true, false, List, [], ◌∷◌, ◌++◌, Option, none,
  some, ◌==◌, if◌then◌else◌, bit_and, bit_or,
}
use douyin_live.Sdk.Text.{Text, codes, char_unit}

abbrev pub own_alphabet : Text
own_alphabet = codes "Dkdpgh4ZKsQB80/Mfvw36XI1R25+WUAlEi7NLboqYTOPuzmFjJnryx9HVGcaStCe"

abbrev pub url_alphabet : Text
url_alphabet = codes "Dkdpgh4ZKsQB80/Mfvw36XI1R25-WUAlEi7NLboqYTOPuzmFjJnryx9HVGcaStCe"

abbrev pub standard_alphabet : Text
standard_alphabet = codes "ABCDEFGHIJKLMNOPQRSTUVWXYZabcdefghijklmnopqrstuvwxyz0123456789+/"

-- `charAt`: the empty text out of range.
unfoldable pub char_at : Text → ℕ → Text
char_at [] i = []
char_at (c ∷ s) zero = c ∷ []
char_at (c ∷ s) (suc i) = char_at s i

-- `(255 & a) << 16 | (255 & b) << 8 | 255 & c`
unfoldable pub group : ℕ → ℕ → ℕ → ℕ
group a b c = bit_or (bit_or (bit_and 255 a * 2 ^ 16) (bit_and 255 b * 2 ^ 8)) (bit_and 255 c)

-- The four digits of a group.
unfoldable pub digit₁ : ℕ → ℕ
digit₁ g = bit_and 0xfc0000 g / 2 ^ 18

unfoldable pub digit₂ : ℕ → ℕ
digit₂ g = bit_and 0x3f000 g / 2 ^ 12

unfoldable pub digit₃ : ℕ → ℕ
digit₃ g = bit_and 4032 g / 2 ^ 6

unfoldable pub digit₄ : ℕ → ℕ
digit₄ g = bit_and 63 g

-- The loop of `_0x328bde` and of the program of `_0x389396`, with what follows it.
unfoldable pub encode : Text → Text → Text → Text
encode alphabet pad [] = []
encode alphabet pad (a ∷ []) =
    let g = bit_or (bit_and 255 a * 2 ^ 16) 0 in
    char_at alphabet (digit₁ g) ++ (char_at alphabet (digit₂ g) ++ (pad ++ pad))
encode alphabet pad (a ∷ b ∷ []) =
    let g = bit_or (bit_and 255 a * 2 ^ 16) (bit_and 255 b * 2 ^ 8) in
    char_at alphabet (digit₁ g)
    ++ (char_at alphabet (digit₂ g) ++ (char_at alphabet (digit₃ g) ++ pad))
encode alphabet pad (a ∷ b ∷ c ∷ text) =
    let g = group a b c in
    char_at alphabet (digit₁ g)
    ++ (char_at alphabet (digit₂ g)
        ++ (char_at alphabet (digit₃ g)
            ++ (char_at alphabet (digit₄ g) ++ encode alphabet pad text)))

-- `_0x328bde(text, alphabet, no_pad)`: an empty or missing alphabet gives the script's own.
unfoldable pub encode_with : Text → Text → Bool → Text
encode_with text [] no_pad = encode own_alphabet (if no_pad then [] else codes "=") text
encode_with text (c ∷ alphabet) no_pad =
    encode (c ∷ alphabet) (if no_pad then [] else codes "=") text

-- The table of `_0x389396`. Each alphabet there has the padding for its last character.
unfoldable pub named_alphabet : String → Option Text
named_alphabet name =
    if str_eq name "s0"
    then some (standard_alphabet ++ codes "=")
    else if str_eq name "s1"
    then some (own_alphabet ++ codes "=")
    else if str_eq name "s2"
    then some (url_alphabet ++ codes "=")
    else none

-- `_0x389396(text, name)`; `none` is the TypeError of `undefined.charAt`.
unfoldable pub encode_named : Text → String → Option Text
encode_named [] name = some []
encode_named (c ∷ text) name =
    Option.map (λ alphabet. encode alphabet (codes "=") (c ∷ text)) (named_alphabet name)

-- `indexOf` of one character, -1 (as a 32-bit pattern) if there is none: `_0x3262d3`.
unfoldable pub index_in : Text → ℕ → ℕ → ℕ
index_in [] i c = 2 ^ 32 - 1
index_in (d ∷ alphabet) i c = if c == d then i else index_in alphabet (i + 1) c

unfoldable pub sextet : ℕ → ℕ
sextet c = index_in standard_alphabet 0 c

-- `_0xb5350b`. `<<` drops what leaves the 32 bits.
unfoldable pub decode : Text → Text
decode (p ∷ q ∷ r ∷ s ∷ text) =
    let a = sextet p in
    let b = sextet q in
    let c = sextet r in
    let d = sextet s in
    let rest = decode text in
    char_unit (bit_or (a * 2 ^ 2 % 2 ^ 32) (b / 2 ^ 4))
    ∷ ((if r == 0x3d
          then []
          else char_unit (bit_or (bit_and (b * 2 ^ 4 % 2 ^ 32) 240) (bit_and (c / 2 ^ 2) 15)) ∷ [])
        ++ ((if s == 0x3d then [] else char_unit (bit_or (bit_and (c * 2 ^ 6 % 2 ^ 32) 192) d) ∷ [])
            ++ rest))
decode _ = []
