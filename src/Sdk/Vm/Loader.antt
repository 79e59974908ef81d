-- ===== src/Sdk/Vm/Loader.antt =====
-- jsScript/webmssdk.js, lines 48 to 88: the loader of programs. A program is a text of hexadecimal
-- digits: a header, the bytes of the code and the strings, which are hidden under a key. A slice of
-- the text is taken from what is left of it. `parseInt` of a slice with no digit is `none` (the
-- source goes on with NaN, which counts as 0 in the key, the strings and the counts); signs,
-- spaces and the prefix 0x, which `parseInt` skips, are not modelled.
pub mod Assemble
pub mod Numbers
pub mod RoundTrip
mod Tests
use douyin_live.Prelude.{
  ℕ, zero, suc, ◌+◌, ◌-◌, ◌*◌, ◌/◌, ◌^◌, Bool, true, false, ◌&&◌, ◌||◌, List, [], ◌∷◌, Option, none,
  some, ltb, leb, ◌==◌, if◌then◌else◌, take, drop, bit_and, bit_or, bit_xor,
}
use douyin_live.Prelude.Result.{Result, ok, err, ◌>>=◌, or_error}
use douyin_live.Sdk.Text.{Text, char_unit}

-- `mhe` and `ve` are the messages of the thrown errors. `not_a_number` is a program whose entry or
-- code holds NaN, which the source returns.
pub data Fault : Type 0 where
  mhe : Fault
  ve : Fault
  not_a_number : Fault

pub record Program : Type 0 where
  pub code : List ℕ
  pub strings : List Text
  pub entry : ℕ

unfoldable pub is_digit : ℕ → Bool
is_digit c = (leb 48 c && leb c 57) || (leb 97 c && leb c 102) || (leb 65 c && leb c 70)

unfoldable pub digit_value : ℕ → ℕ
digit_value c = if leb c 57 then c - 48 else if leb c 70 then c - 55 else c - 87

-- The digits from the start of the text on.
unfoldable pub parse_from : ℕ → Text → ℕ
parse_from acc [] = acc
parse_from acc (c ∷ text) =
    let more = parse_from (acc * 16 + digit_value c) text in if is_digit c then more else acc

-- `parseInt(text, 16)`
unfoldable pub parse_hex : Text → Option ℕ
parse_hex [] = none
parse_hex (c ∷ text) = if is_digit c then some (parse_from 0 (c ∷ text)) else none

-- `parseInt(text.slice(at, at + n), 16)`, where NaN counts as 0.
unfoldable pub read_hex : ℕ → Text → ℕ
read_hex n text = elim (parse_hex (take n text)) [ none ↦ 0 | some v ↦ v ]

-- A number with its low digits: where there are none the sum is NaN.
unfoldable pub add_hex : ℕ → ℕ → Text → ℕ
add_hex high n text = elim (parse_hex (take n text)) [ none ↦ 0 | some low ↦ high + low ]

-- `_0x467cb0`: the bytes that a number takes, and the number.
unfoldable pub read_varint : Text → ℕ × ℕ
read_varint text =
    let b = read_hex 2 text in
    if b / 2 ^ 7 == 0
    then (1, b)
    else if b / 2 ^ 6 == 2
    then (2, add_hex (bit_and 63 b * 2 ^ 8) 2 (drop 2 text))
    else (3, add_hex (bit_and 63 b * 2 ^ 16) 4 (drop 2 text))

-- The key: two bits of each of four bytes.
unfoldable pub read_key : ℕ → ℕ → Text → ℕ
read_key zero shift text = 0
read_key (suc left) shift text =
    bit_and 3 (read_hex 2 text) * 2 ^ shift + read_key left (shift + 2) (drop 2 text)

-- The bytes of the code.
unfoldable pub read_code : ℕ → Text → Option (List ℕ)
read_code zero text = some []
read_code (suc left) text = elim (parse_hex (take 2 text)) [
  | none ↦ none
  | some b ↦ elim (read_code left (drop 2 text)) [ none ↦ none | some code ↦ some (b ∷ code) ]
]

-- The characters of a string, and the text behind them.
unfoldable pub read_chars : ℕ → ℕ → Text → Text × Text
read_chars key zero text = ([], text)
read_chars key (suc left) text =
    let (size, value) = read_varint text in
    let (chars, rest) = read_chars key left (drop (2 * size) text) in
    (char_unit (bit_xor key value) ∷ chars, rest)

unfoldable pub read_strings : ℕ → ℕ → Text → List Text
read_strings key zero text = []
read_strings key (suc left) text =
    let (size, count) = read_varint text in
    let (chars, rest) = read_chars key count (drop (2 * size) text) in
    chars ∷ read_strings key left rest

unfoldable pub read_body : ℕ → Text → Option Program
read_body key text = elim (parse_hex (take 8 (drop 32 text))) [
  | none ↦ none
  | some entry ↦
      let size = read_hex 8 (drop 48 text) in
      let body = drop 56 text in
      let behind = drop (2 * size) body in
      elim (read_code size body) [
        | none ↦ none
        | some code ↦ some (record {
          code = code;
          strings = read_strings key (read_hex 4 behind) (drop 4 behind);
          entry = entry;
        })
      ]
]

is : ℕ → Option ℕ → Bool
is n none = false
is n (some m) = m == n

-- The loading part of `w_0x5c3140`.
unfoldable pub load : Text → Result Fault Program
unfolding is
load text =
    if is 1213091658 (parse_hex (take 8 text)) && is 1077891651 (parse_hex (take 8 (drop 8 text)))
    then (if is 0 (parse_hex (take 2 (drop 16 text)))
        then or_error not_a_number (read_body (read_key 4 0 (drop 24 text)) text)
        else err ve)
    else err mhe
