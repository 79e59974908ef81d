-- ===== src/Sdk/Bogus/Bytes.antt =====
-- jsScript/webmssdk.js, lines 5404 to 5416 and 5886 to 5932: the functions that put bytes into
-- texts for the programs of the signature. A `Uint8Array` keeps a number modulo 2 ^ 8.
use douyin_live.Prelude.{
  ◌<◌, ◌==◌, if◌then◌else◌, Bool-cases, inl, inr, All-append, true, ℕ, zero, suc, ◌/◌, ◌%◌, ◌^◌,
  ◌≡◌, refl, ap₂, List, [], ◌∷◌, ◌++◌, map, arith, length, get_or,
}
use douyin_live.Sdk.Text.{Text, IsBytes}

abbrev to_byte : ℕ → ℕ
to_byte n = n % 2 ^ 8

-- `_0x3c875d`: a number of two bytes, and one of a byte.
unfoldable pub three_bytes : ℕ → ℕ → Text
three_bytes a b = to_byte (a / 256) ∷ to_byte (a % 256) ∷ to_byte (b % 256) ∷ []

-- `_0x4b49f3`
unfoldable pub one_char : ℕ → Text
one_char n = n % 2 ^ 16 ∷ []

-- `_0x26151b`
unfoldable pub with_prefix : ℕ → ℕ → Text → Text
unfolding one_char
with_prefix a b text = one_char a ++ (one_char b ++ text)

-- The loop of `_0x5646fa` for a unit, the highest byte first; a unit of 16 bits has two bytes at
-- most.
unfoldable pub unit_bytes : ℕ → List ℕ
unit_bytes c = if c / 2 ^ 8 == 0 then c % 2 ^ 8 ∷ [] else c / 2 ^ 8 % 2 ^ 8 ∷ c % 2 ^ 8 ∷ []

-- `_0x5646fa`
unfoldable pub text_bytes : Text → List ℕ
unfolding unit_bytes
text_bytes [] = []
text_bytes (c ∷ text) = unit_bytes c ++ text_bytes text

-- Where `_0x538c80` puts its nineteen arguments: the first ten and the other nine in turn.
abbrev places : List ℕ
places = 0 ∷ 10 ∷ 1 ∷ 11 ∷ 2 ∷ 12 ∷ 3 ∷ 13 ∷ 4 ∷ 14 ∷ 5 ∷ 15 ∷ 6 ∷ 16 ∷ 7 ∷ 17 ∷ 8 ∷ 18 ∷ 9 ∷ []

-- `_0x538c80`; an argument that is missing becomes 0.
unfoldable pub interleave : List ℕ → Text
interleave arguments = map (λ i. to_byte (get_or arguments i 0)) places

abbrev evens : List ℕ → List ℕ
evens [] = []
evens (a ∷ []) = a ∷ []
evens (a ∷ b ∷ list) = a ∷ evens list

abbrev odds : List ℕ → List ℕ
odds [] = []
odds (a ∷ []) = []
odds (a ∷ b ∷ list) = b ∷ odds list

abbrev list_of : ℕ → (ℕ → ℕ) → List ℕ
list_of zero f = []
list_of (suc n) f = f 0 ∷ list_of n (λ i. f (suc i))

list_of-get_or :
    (n : ℕ) (bytes : List ℕ)
    → length bytes ≡ n
    → IsBytes bytes
    → list_of n (λ i. to_byte (get_or bytes i 0)) ≡ bytes
list_of-get_or zero [] e h = refl
list_of-get_or zero (a ∷ bytes) e h = absurd (omega (arith, e))
list_of-get_or (suc n) [] e h = absurd (omega (arith, e))
list_of-get_or (suc n) (a ∷ bytes) e (small, h) =
    ap₂ ◌∷◌ (omega (arith, small)) (list_of-get_or n bytes (omega (arith, e)) h)

-- Nineteen bytes are found again: the first ten at the even places, and then the others.
pub evens-interleave :
    (bytes : List ℕ)
    → length bytes ≡ 19
    → IsBytes bytes
    → evens (interleave bytes) ++ odds (interleave bytes) ≡ bytes
unfolding interleave
evens-interleave bytes e h = list_of-get_or 19 bytes e h

unit_bytes-IsBytes : (c : ℕ) → IsBytes (unit_bytes c)
unfolding unit_bytes
unit_bytes-IsBytes c = elim (Bool-cases (c / 2 ^ 8 == 0)) [
  | inl small ↦ rw small (omega arith, tt)
  | inr large ↦ rw large (omega arith, (omega arith, tt))
]

pub text_bytes-IsBytes : (text : Text) → IsBytes (text_bytes text)
unfolding text_bytes
text_bytes-IsBytes [] = tt
text_bytes-IsBytes (c ∷ text) =
    All-append (λ b. b < 2 ^ 8) (unit_bytes c) (text_bytes text) (unit_bytes-IsBytes c)
      (text_bytes-IsBytes text)

-- The bytes of a text of bytes are its units.
pub text_bytes-whole : (text : Text) → IsBytes text → text_bytes text ≡ text
unfolding text_bytes unit_bytes
text_bytes-whole [] h = refl
text_bytes-whole (c ∷ text) (small, h) =
    let zero_high : (c / 2 ^ 8 == 0) ≡ true = ground arith in
    let low : c % 2 ^ 8 ≡ c = omega (arith, small) in
    rw (zero_high, low, text_bytes-whole text h) refl
