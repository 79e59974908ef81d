-- ===== src/Sdk/Hex/RoundTrip.antt =====
-- The two directions of the hexadecimal coding.
use douyin_live.Prelude.{
  ℕ, ◌*◌, ◌/◌, ◌%◌, ◌^◌, ◌<◌, ◌≡◌, refl, ◌&&◌, true, List, [], ◌∷◌, arith, ◌==◌, ==_iff, Bool,
  get_or, not, ltb, ◌||◌, all_below, all_below_sound, ap₂, length, bit_or, ◌∙◌,
}
use douyin_live.Sdk.Text.{Text, IsBytes}
use douyin_live.Sdk.Hex.{
  hex_high, hex_low, hex_value, hex_digits, encode, decode, is_hex_digit, IsHex,
}

abbrev byte_reads_back : ℕ → Bool
byte_reads_back b = bit_or (hex_value (hex_high b) * 2 ^ 4) (hex_value (hex_low b)) % 2 ^ 8 == b

byte_table : all_below 256 byte_reads_back ≡ true
unfolding all_below hex_value hex_high hex_low
byte_table = refl

byte_round :
    (b : ℕ) → b < 256 → bit_or (hex_value (hex_high b) * 2 ^ 4) (hex_value (hex_low b)) % 2 ^ 8 ≡ b
byte_round b h = (==_iff _ b).0 (all_below_sound 256 byte_reads_back b byte_table h)

-- Decoding takes back the encoding of bytes.
pub hex_decode-encode : (bytes : List ℕ) → IsBytes bytes → decode (encode bytes) ≡ bytes
unfolding decode encode
hex_decode-encode [] h = refl
hex_decode-encode (b ∷ bytes) (hb, h) = ap₂ ◌∷◌ (byte_round b hb) (hex_decode-encode bytes h)

abbrev pair_reads_back : ℕ → ℕ → Bool
pair_reads_back x y =
    (hex_high (bit_or (x * 2 ^ 4) y % 2 ^ 8) == get_or hex_digits x 0)
    && (hex_low (bit_or (x * 2 ^ 4) y % 2 ^ 8) == get_or hex_digits y 0)

pair_table : all_below 16 (λ x. all_below 16 (pair_reads_back x)) ≡ true
unfolding all_below hex_high hex_low
pair_table = refl

abbrev digit_reads : ℕ → Bool
digit_reads c =
    not (is_hex_digit c) || (ltb (hex_value c) 16 && (get_or hex_digits (hex_value c) 0 == c))

digit_table : all_below 103 digit_reads ≡ true
unfolding all_below hex_value
digit_table = refl

pub digit_value :
    (c : ℕ) → is_hex_digit c ≡ true → (hex_value c < 16) × (get_or hex_digits (hex_value c) 0 ≡ c)
digit_value c h =
    let small : c < 103 = ground arith in
    let t : digit_reads c ≡ true = all_below_sound 103 digit_reads c digit_table small in
    ground arith

pair_value :
    (x y : ℕ)
    → x < 16
    → y < 16
    → (hex_high (bit_or (x * 2 ^ 4) y % 2 ^ 8) ≡ get_or hex_digits x 0)
      × (hex_low (bit_or (x * 2 ^ 4) y % 2 ^ 8) ≡ get_or hex_digits y 0)
pair_value x y p q =
    let row : all_below 16 (pair_reads_back x) ≡ true =
      all_below_sound 16 (λ x. all_below 16 (pair_reads_back x)) x pair_table p in
    let t : pair_reads_back x y ≡ true = all_below_sound 16 (pair_reads_back x) y row q in
    ground arith

-- Encoding takes back the decoding of lower-case digits in pairs.
pub hex_encode-decode :
    (text : Text) → IsHex text → length text % 2 ≡ 0 → encode (decode text) ≡ text
unfolding decode encode
hex_encode-decode [] h e = refl
hex_encode-decode (c ∷ []) h e = absurd (omega arith)
hex_encode-decode (c ∷ d ∷ text) (hc, (hd, h)) e =
    let (vc, ec) = digit_value c hc in
    let (vd, ed) = digit_value d hd in
    let (high, low) = pair_value (hex_value c) (hex_value d) vc vd in
    ap₂ ◌∷◌ (high ∙ ec) (ap₂ ◌∷◌ (low ∙ ed) (hex_encode-decode text h (omega arith)))

-- Decoding gives bytes, one for two characters.
pub decode-IsBytes :
    (text : Text) → IsBytes (decode text) × (length (decode text) ≡ length text / 2)
unfolding decode
decode-IsBytes [] = (tt, omega arith)
decode-IsBytes (c ∷ []) = (tt, omega arith)
decode-IsBytes (c ∷ d ∷ text) = let (b, l) = decode-IsBytes text in ((omega arith, b), omega arith)
