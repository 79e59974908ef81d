-- ===== src/Sdk/Utf8.antt =====
-- jsScript/webmssdk.js, lines 4287 to 4418: the UTF-8 coding of the script. `_0x532596` encodes the
-- code units of a text into bytes, `_0x45fbef` and `_0x25bfe1` decode, the second in chunks, and
-- `_0x31dfb5` chooses. A thrown error is a `Fault`. A loop's index into its output only counts the
-- units that are left, so the model counts them down; an arrayful of units is the list of them.
pub mod Bytes
pub mod RoundTrip
pub mod Chunks
mod Tests
use douyin_live.Prelude.{
  ℕ, zero, suc, ◌+◌, ◌-◌, ◌*◌, ◌/◌, ◌^◌, Bool, true, false, not, ◌&&◌, ◌||◌, List, [], ◌∷◌, ◌++◌,
  Option, none, some, ltb, leb, ◌==◌, if◌then◌else◌, length, take, bit_and, bit_or,
}
use douyin_live.Prelude.Result.{Result, ok, err, ◌>>=◌}
use douyin_live.Sdk.Text.{Text}

pub data Fault : Type 0 where
  malformed : Fault
  unfinished : Fault
  bad_byte : Fault
  out_of_range : Fault

-- `/^[\x00-\x7f]*$/.test(text)` with the limit 128, and `/^[\x00-\xff]*$/` with 256.
unfoldable pub all_units_below : ℕ → Text → Bool
all_units_below limit [] = true
all_units_below limit (c ∷ text) = ltb c limit && all_units_below limit text

-- The bytes of a code point of each size.
unfoldable pub bytes₂ : ℕ → Text
bytes₂ c = bit_or 192 (c / 2 ^ 6) ∷ bit_or 128 (bit_and 63 c) ∷ []

unfoldable pub bytes₃ : ℕ → Text
bytes₃ c =
    bit_or 224 (c / 2 ^ 12) ∷ bit_or 128 (bit_and (c / 2 ^ 6) 63) ∷ bit_or 128 (bit_and 63 c) ∷ []

unfoldable pub bytes₄ : ℕ → Text
bytes₄ p =
    bit_or 240 (bit_and (p / 2 ^ 18) 63)
    ∷ bit_or 128 (bit_and (p / 2 ^ 12) 63)
    ∷ bit_or 128 (bit_and (p / 2 ^ 6) 63)
    ∷ bit_or 128 (bit_and 63 p)
    ∷ []

-- `65536 + ((1023 & high) << 10 | 1023 & low)`
unfoldable pub join_pair : ℕ → ℕ → ℕ
join_pair high low = 65536 + bit_or (bit_and 1023 high * 2 ^ 10) (bit_and 1023 low)

unfoldable pub is_surrogate : ℕ → Bool
is_surrogate c = leb 55296 c && leb c 57343

-- What follows a surrogate decides: the first of a pair has a second one behind it.
unfoldable pub is_pair : ℕ → ℕ → Bool
is_pair high low = ltb high 56320 && (leb 56320 low && leb low 57343)

-- A unit that is no surrogate.
unfoldable pub encode_unit : ℕ → Text
encode_unit c = if ltb c 128 then c ∷ [] else if ltb c 2048 then bytes₂ c else bytes₃ c

unfoldable pub prepend : Text → Result Fault Text → Result Fault Text
prepend bytes rest = rest >>= λ more. ok (bytes ++ more)

-- The loop of `_0x532596`; `pending` is the first unit of a pair that the loop looks behind.
unfoldable pub encode_loop : Option ℕ → Text → Result Fault Text
unfolding prepend
encode_loop none [] = ok []
encode_loop (some high) [] = err malformed
encode_loop none (c ∷ text) = elim (is_surrogate c) [
  | true ↦ encode_loop (some c) text
  | false ↦ prepend (encode_unit c) (encode_loop none text)
]
encode_loop (some high) (c ∷ text) = elim (is_pair high c) [
  | true ↦ prepend (bytes₄ (join_pair high c)) (encode_loop none text)
  | false ↦ err malformed
]

-- `_0x532596`
unfoldable pub encode : Text → Result Fault Text
encode text = if all_units_below 128 text then ok text else encode_loop none text

-- One step of a decoding loop: the units of a sequence, and the bytes behind it.
pub data Units : Type 0 where
  one : ℕ → Units
  two : ℕ → ℕ → Units

-- `(31 & b) << 6 | 63 & c1`
unfoldable pub decode₂ : ℕ → ℕ → ℕ
decode₂ b c₁ = bit_or (bit_and 31 b * 2 ^ 6) (bit_and 63 c₁)

unfoldable pub decode₃ : ℕ → ℕ → ℕ → ℕ
decode₃ b c₁ c₂ = bit_or (bit_or (bit_and 15 b * 2 ^ 12) (bit_and 63 c₁ * 2 ^ 6)) (bit_and 63 c₂)

unfoldable pub decode₄ : ℕ → ℕ → ℕ → ℕ → ℕ
decode₄ b c₁ c₂ c₃ =
    bit_or (bit_or (bit_or (bit_and 7 b * 2 ^ 18) (bit_and 63 c₁ * 2 ^ 12)) (bit_and 63 c₂ * 2 ^ 6))
      (bit_and 63 c₃)

-- The two units of a code point from 65536 on. `0 <= p && p <= 1048575`, where `p` is the code
-- point less 65536.
unfoldable pub split_pair : ℕ → Result Fault Units
split_pair point =
    let p = point - 65536 in
    if leb 65536 point && leb p 1048575
    then ok (two (bit_or (bit_and (p / 2 ^ 10) 1023) 55296) (bit_or (bit_and 1023 p) 56320))
    else err out_of_range

unfoldable pub next₂ : ℕ → Text → Result Fault (Units × Text)
next₂ b (c₁ ∷ text) = ok (one (decode₂ b c₁), text)
next₂ b _ = err unfinished

unfoldable pub next₃ : ℕ → Text → Result Fault (Units × Text)
next₃ b (c₁ ∷ c₂ ∷ text) = ok (one (decode₃ b c₁ c₂), text)
next₃ b _ = err unfinished

unfoldable pub next₄ : ℕ → Text → Result Fault (Units × Text)
next₄ b (c₁ ∷ c₂ ∷ c₃ ∷ text) = split_pair (decode₄ b c₁ c₂ c₃) >>= λ units. ok (units, text)
next₄ b _ = err unfinished

-- `switch (b >> 4)`
unfoldable pub next : ℕ → Text → Result Fault (Units × Text)
next b text =
    if ltb (b / 2 ^ 4) 8
    then ok (one b, text)
    else if b / 2 ^ 4 == 12 || b / 2 ^ 4 == 13
    then next₂ b text
    else if b / 2 ^ 4 == 14
    then next₃ b text
    else if b / 2 ^ 4 == 15
    then next₄ b text
    else err bad_byte

-- The loop of `_0x45fbef`, with the units that are left. A pair counts twice: `behind` is set when
-- the second unit of a pair has not been counted yet.
unfoldable pub decode_units : ℕ → Bool → Text → Result Fault Text
unfolding prepend
decode_units zero behind text = ok []
decode_units (suc left) true text = decode_units left false text
decode_units (suc left) false [] = ok []
decode_units (suc left) false (b ∷ text) = elim (next b text) [
  | ok (one c, rest) ↦ prepend (c ∷ []) (decode_units left false rest)
  | ok (two high low, rest) ↦ prepend (high ∷ low ∷ []) (decode_units left true rest)
  | err e ↦ err e
]

-- `_0x25bfe1` hands a chunk over once its last index is 32766 or more.
unfoldable pub hand_over : Text → Text × Text
hand_over chunk = if ltb 32766 (length chunk) then (chunk, []) else ([], chunk)

-- The loop of `_0x25bfe1`, with the chunk that is filled; the chunks are joined as they are made.
unfoldable pub decode_chunks : ℕ → Bool → Text → Text → Result Fault Text
unfolding prepend hand_over
decode_chunks zero behind chunk text = ok chunk
decode_chunks (suc left) true chunk text = decode_chunks left false chunk text
decode_chunks (suc left) false chunk [] = ok chunk
decode_chunks (suc left) false chunk (b ∷ text) = elim (next b text) [
  | ok (one c, rest) ↦
      let full = hand_over (chunk ++ c ∷ []) in
      prepend full.0 (decode_chunks left false full.1 rest)
  | ok (two high low, rest) ↦
      let full = hand_over (chunk ++ high ∷ low ∷ []) in
      prepend full.0 (decode_chunks left true full.1 rest)
  | err e ↦ err e
]

-- `_0x31dfb5`, with `none` for a limit that is missing or negative.
unfoldable pub decode : Text → Option ℕ → Result Fault Text
decode text (some limit) =
    if limit == 0
    then ok []
    else if all_units_below 128 text || not (all_units_below 256 text)
    then ok (if limit == length text then text else take limit text)
    else if ltb limit 65535
    then decode_units limit false text
    else decode_chunks limit false [] text
decode text none =
    if length text == 0
    then ok []
    else if all_units_below 128 text || not (all_units_below 256 text)
    then ok text
    else if ltb (length text) 65535
    then decode_units (length text) false text
    else decode_chunks (length text) false [] text
