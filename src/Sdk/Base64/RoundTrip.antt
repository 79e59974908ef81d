-- ===== src/Sdk/Base64/RoundTrip.antt =====
-- The decoder `_0xb5350b` takes back what the encoders make with the standard alphabet.
use douyin_live.Prelude.{
  ℕ, zero, suc, length, get_or, ◌+◌, ◌*◌, ◌/◌, ◌%◌, ◌^◌, ◌<◌, ◌≡◌, refl, Bool, true, false, [], ◌∷◌,
  arith, ◌==◌, ◌&&◌, not, all_below, all_below_sound, bit_and, bit_or,
}
use douyin_live.Sdk.Text.{Text, IsBytes, codes}
use douyin_live.Sdk.Base64.{
  standard_alphabet, char_at, index_in, sextet, group, digit₁, digit₂, digit₃, digit₄, encode,
  decode,
}
use douyin_live.Sdk.Base64.Group.{
  digit₁_lem, digit₂_lem, digit₃_lem, digit₄_lem, group_lem, group_two, group_one, first_byte,
  second_byte, third_byte,
}

pub char_at_lem : (s : Text) (k : ℕ) → k < length s → char_at s k ≡ get_or s k 0 ∷ []
unfolding char_at
char_at_lem [] k h = absurd (omega arith)
char_at_lem (c ∷ s) zero h = refl
char_at_lem (c ∷ s) (suc k) h = char_at_lem s k (omega arith)

-- The character for a digit.
letter : ℕ → ℕ
letter k = get_or standard_alphabet k 0

abbrev reads_back : ℕ → Bool
reads_back k = (sextet (letter k) == k) && not (letter k == 0x3d)

letter_table : all_below 64 reads_back ≡ true
unfolding all_below letter sextet index_in
letter_table = refl

letter_reads : (k : ℕ) → k < 64 → (sextet (letter k) ≡ k) × ((letter k == 0x3d) ≡ false)
letter_reads k h =
    let t : reads_back k ≡ true = all_below_sound 64 reads_back k letter_table h in ground arith

char_at-letter : (k : ℕ) → k < 64 → char_at standard_alphabet k ≡ letter k ∷ []
unfolding letter
char_at-letter k h = char_at_lem standard_alphabet k h

-- Four digits are decoded to three bytes.
decode_four :
    (a b c d : ℕ) (rest : Text)
    → a < 64
    → b < 64
    → c < 64
    → d < 64
    → decode (letter a ∷ letter b ∷ letter c ∷ letter d ∷ rest)
      ≡ (a * 4 + b / 16) ∷ (b % 16 * 16 + c / 4) ∷ (c % 4 * 64 + d) ∷ decode rest
unfolding decode
decode_four a b c d rest pa pb pc pd =
    let (ra, na) = letter_reads a pa in
    let (rb, nb) = letter_reads b pb in
    let (rc, nc) = letter_reads c pc in
    let (rd, nd) = letter_reads d pd in
    rw (ra, rb, rc, rd, nc, nd, first_byte a b pa pb, second_byte b c pb pc, third_byte c d pc pd)
      (ground arith)

-- Two digits and two marks are decoded to one byte, three digits and a mark to two.
decode_two :
    (a b : ℕ) (rest : Text)
    → a < 64
    → b < 64
    → decode (letter a ∷ letter b ∷ 0x3d ∷ 0x3d ∷ rest) ≡ (a * 4 + b / 16) ∷ decode rest
unfolding decode
decode_two a b rest pa pb =
    let (ra, na) = letter_reads a pa in
    let (rb, nb) = letter_reads b pb in rw (ra, rb, first_byte a b pa pb) (ground arith)

decode_three :
    (a b c : ℕ) (rest : Text)
    → a < 64
    → b < 64
    → c < 64
    → decode (letter a ∷ letter b ∷ letter c ∷ 0x3d ∷ rest)
      ≡ (a * 4 + b / 16) ∷ (b % 16 * 16 + c / 4) ∷ decode rest
unfolding decode
decode_three a b c rest pa pb pc =
    let (ra, na) = letter_reads a pa in
    let (rb, nb) = letter_reads b pb in
    let (rc, nc) = letter_reads c pc in
    rw (ra, rb, rc, nc, first_byte a b pa pb, second_byte b c pb pc) (ground arith)

-- A group of three bytes is encoded by four characters.
encode_group :
    (a b c : ℕ) (text : Text)
    → a < 256
    → b < 256
    → c < 256
    → encode standard_alphabet (codes "=") (a ∷ b ∷ c ∷ text)
      ≡ letter (a / 4)
        ∷ letter (a % 4 * 16 + b / 16)
        ∷ letter (b % 16 * 4 + c / 64)
        ∷ letter (c % 64)
        ∷ encode standard_alphabet (codes "=") text
unfolding encode
encode_group a b c text pa pb pc =
    let g = group a b c in
    let e : g ≡ a * 2 ^ 16 + b * 2 ^ 8 + c = group_lem a b c pa pb pc in
    let d₁ : digit₁ g ≡ a / 4 = omega (arith, digit₁_lem g) in
    let d₂ : digit₂ g ≡ a % 4 * 16 + b / 16 = omega (arith, digit₂_lem g) in
    let d₃ : digit₃ g ≡ b % 16 * 4 + c / 64 = omega (arith, digit₃_lem g) in
    let d₄ : digit₄ g ≡ c % 64 = omega (arith, digit₄_lem g) in
    rw
      (
        d₁,
        d₂,
        d₃,
        d₄,
        char_at-letter (a / 4) (omega arith),
        char_at-letter (a % 4 * 16 + b / 16) (omega arith),
        char_at-letter (b % 16 * 4 + c / 64) (omega arith),
        char_at-letter (c % 64) (omega arith),
      )
      refl

encode_two :
    (a b : ℕ)
    → a < 256
    → b < 256
    → encode standard_alphabet (codes "=") (a ∷ b ∷ [])
      ≡ letter (a / 4) ∷ letter (a % 4 * 16 + b / 16) ∷ letter (b % 16 * 4) ∷ 0x3d ∷ []
unfolding encode
encode_two a b pa pb =
    let g = bit_or (bit_and 255 a * 2 ^ 16) (bit_and 255 b * 2 ^ 8) in
    let e : g ≡ a * 2 ^ 16 + b * 2 ^ 8 = group_two a b pa pb in
    let d₁ : digit₁ g ≡ a / 4 = omega (arith, digit₁_lem g) in
    let d₂ : digit₂ g ≡ a % 4 * 16 + b / 16 = omega (arith, digit₂_lem g) in
    let d₃ : digit₃ g ≡ b % 16 * 4 = omega (arith, digit₃_lem g) in
    rw
      (
        d₁,
        d₂,
        d₃,
        char_at-letter (a / 4) (omega arith),
        char_at-letter (a % 4 * 16 + b / 16) (omega arith),
        char_at-letter (b % 16 * 4) (omega arith),
      )
      refl

encode_one :
    (a : ℕ)
    → a < 256
    → encode standard_alphabet (codes "=") (a ∷ [])
      ≡ letter (a / 4) ∷ letter (a % 4 * 16) ∷ 0x3d ∷ 0x3d ∷ []
unfolding encode
encode_one a pa =
    let g = bit_or (bit_and 255 a * 2 ^ 16) 0 in
    let e : g ≡ a * 2 ^ 16 = group_one a pa in
    let d₁ : digit₁ g ≡ a / 4 = omega (arith, digit₁_lem g) in
    let d₂ : digit₂ g ≡ a % 4 * 16 = omega (arith, digit₂_lem g) in
    rw (d₁, d₂, char_at-letter (a / 4) (omega arith), char_at-letter (a % 4 * 16) (omega arith))
      refl

-- For bytes, decoding takes back the encoding with the standard alphabet.
pub decode-encode :
    (text : Text) → IsBytes text → decode (encode standard_alphabet (codes "=") text) ≡ text
decode-encode [] h = unfold decode encode in refl
decode-encode (a ∷ []) (ha, _) =
    rw (encode_one a ha, decode_two (a / 4) (a % 4 * 16) [] (omega arith) (omega arith))
      (unfold decode in ground arith)
decode-encode (a ∷ b ∷ []) (ha, (hb, _)) =
    rw
      (
        encode_two a b ha hb,
        decode_three (a / 4) (a % 4 * 16 + b / 16) (b % 16 * 4) [] (omega arith) (omega arith)
            (omega arith),
      )
      (unfold decode in ground arith)
decode-encode (a ∷ b ∷ c ∷ text) (ha, (hb, (hc, h))) =
    rw
      (
        encode_group a b c text ha hb hc,
        decode_four (a / 4) (a % 4 * 16 + b / 16) (b % 16 * 4 + c / 64) (c % 64)
            (encode standard_alphabet (codes "=") text) (omega arith) (omega arith) (omega arith)
            (omega arith),
        decode-encode text h,
      )
      (ground arith)
