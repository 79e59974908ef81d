-- ===== src/Native/Stdlib.antt =====
-- What internal/webcastsign/native.go uses of Go's standard library: `hex.DecodeString`,
-- `crypto/rc4`, and `base64.NewEncoding(alphabet).WithPadding(base64.NoPadding)`. Texts and byte
-- slices are lists of bytes.
use douyin_live.Prelude.{
  ℕ, zero, suc, ◌+◌, ◌-◌, ◌*◌, ◌/◌, ◌%◌, ◌^◌, List, [], ◌∷◌, ◌&&◌, Option, none, some, leb,
  if◌then◌else◌, length, get_or, set, bit_xor,
}
use douyin_live.Sdk.Text.{codes}

-- A hexadecimal digit of either case.
unfoldable pub from_hex : ℕ → Option ℕ
from_hex c =
    if leb 48 c && leb c 57
    then some (c - 48)
    else if leb 97 c && leb c 102
    then some (c - 87)
    else if leb 65 c && leb c 70
    then some (c - 55)
    else none

join_byte : Option ℕ → Option ℕ → Option (List ℕ) → Option (List ℕ)
join_byte (some high) (some low) (some bytes) = some ((high * 16 + low) ∷ bytes)
join_byte _ _ _ = none

-- `none` for a character that is no digit, and for an odd length.
unfoldable pub decode_string : List ℕ → Option (List ℕ)
unfolding join_byte
decode_string [] = some []
decode_string (c ∷ []) = none
decode_string (c ∷ d ∷ text) = join_byte (from_hex c) (from_hex d) (decode_string text)

unfoldable pub bytes_from : ℕ → ℕ → List ℕ
bytes_from zero i = []
bytes_from (suc left) i = i ∷ bytes_from left (i + 1)

-- The key schedule from round `i` on.
unfoldable pub mix : List ℕ → ℕ → ℕ → ℕ → List ℕ → List ℕ
mix key zero i j s = s
mix key (suc left) i j s =
    let x = get_or s i 0 in
    let j' = (j + x + get_or key (i % length key) 0) % 256 in
    mix key left (i + 1) j' (set (set s i (get_or s j' 0)) j' x)

-- `rc4.NewCipher`; the error is for an empty key or one of more than 256 bytes.
unfoldable pub new_cipher : List ℕ → Option (List ℕ)
new_cipher key =
    if leb 1 (length key) && leb (length key) 256
    then some (mix key 256 0 0 (bytes_from 256 0))
    else none

-- The key stream, as many bytes as are asked for.
unfoldable pub key_stream : ℕ → ℕ → ℕ → List ℕ → List ℕ
key_stream zero i j s = []
key_stream (suc left) i j s =
    let i' = (i + 1) % 256 in
    let x = get_or s i' 0 in
    let j' = (j + x) % 256 in
    let y = get_or s j' 0 in
    let s' = set (set s i' y) j' x in get_or s' ((x + y) % 256) 0 ∷ key_stream left i' j' s'

unfoldable pub xor_with : List ℕ → List ℕ → List ℕ
xor_with (b ∷ bytes) (k ∷ keys) = bit_xor b k ∷ xor_with bytes keys
xor_with _ _ = []

-- `Cipher.XORKeyStream` of a new cipher.
unfoldable pub xor_key_stream : List ℕ → List ℕ → List ℕ
xor_key_stream cipher bytes = xor_with bytes (key_stream (length bytes) 0 0 cipher)

abbrev pub custom_alphabet : List ℕ
custom_alphabet = codes "Dkdpgh4ZKsQB80/Mfvw36XI1R25+WUAlEi7NLboqYTOPuzmFjJnryx9HVGcaStCe"

-- `EncodeToString` without padding.
unfoldable pub encode_to_string : List ℕ → List ℕ
encode_to_string [] = []
encode_to_string (a ∷ []) =
    let v = a * 2 ^ 16 in
    get_or custom_alphabet (v / 2 ^ 18 % 64) 0 ∷ get_or custom_alphabet (v / 2 ^ 12 % 64) 0 ∷ []
encode_to_string (a ∷ b ∷ []) =
    let v = a * 2 ^ 16 + b * 2 ^ 8 in
    get_or custom_alphabet (v / 2 ^ 18 % 64) 0
    ∷ get_or custom_alphabet (v / 2 ^ 12 % 64) 0
    ∷ get_or custom_alphabet (v / 2 ^ 6 % 64) 0
    ∷ []
encode_to_string (a ∷ b ∷ c ∷ bytes) =
    let v = a * 2 ^ 16 + b * 2 ^ 8 + c in
    get_or custom_alphabet (v / 2 ^ 18 % 64) 0
    ∷ get_or custom_alphabet (v / 2 ^ 12 % 64) 0
    ∷ get_or custom_alphabet (v / 2 ^ 6 % 64) 0
    ∷ get_or custom_alphabet (v % 64) 0
    ∷ encode_to_string bytes
