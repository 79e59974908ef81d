-- ===== src/Native/Parts.antt =====
-- The parts of the two implementations of the signature agree: the hexadecimal decoders on the
-- digits that both read, the ciphers on bytes, the base-64 coders on whole groups.
use native.Mathlib.Nat.{mod-eq_of_lt}
use douyin_live.Prelude.{
  ℕ, zero, suc, ◌+◌, ◌*◌, ◌/◌, ◌%◌, ◌^◌, ◌<◌, ◌≡◌, refl, sym, ◌∙◌, ap, ap₂, Bool, true, List, [],
  ◌∷◌, ◌++◌, some, arith, ◌==◌, ==_iff, length, get_or, bit_or, bit_xor, or_fields, xor_lt,
  all_below, all_below_sound,
}
use douyin_live.Sdk.Text.{Text, IsBytes, codes, char_unit}
use douyin_live.Sdk.Hex
use douyin_live.Sdk.Hex.{hex_value, is_hex_digit, IsHex}
use douyin_live.Sdk.Hex.RoundTrip.{digit_value}
use douyin_live.Sdk.Rc4.{identity_from, swap, schedule, crypt, sbox, rc4}
use douyin_live.Sdk.Rc4.Laws.{rc4-IsBytes}
use douyin_live.Sdk.Rc4.Sbox.{IsSbox, sbox-IsSbox, swap-IsSbox, get_or-swap}
use douyin_live.Sdk.Base64.{char_at, encode, own_alphabet}
use douyin_live.Sdk.Base64.Group.{digit₁_lem, digit₂_lem, digit₃_lem, digit₄_lem, group_lem}
use douyin_live.Sdk.Base64.RoundTrip.{char_at_lem}
use douyin_live.Native.Stdlib.{
  from_hex, decode_string, bytes_from, mix, new_cipher, key_stream, xor_with, xor_key_stream,
  custom_alphabet, encode_to_string,
}

from_hex_lem : (c : ℕ) → is_hex_digit c ≡ true → from_hex c ≡ some (hex_value c)
unfolding from_hex hex_value
from_hex_lem c h = ground arith

-- On lower-case digits in pairs Go's decoder returns what the script's decoder returns.
pub decode_string-decode :
    (text : Text) → IsHex text → length text % 2 ≡ 0 → decode_string text ≡ some (Hex.decode text)
unfolding decode_string Hex.decode
decode_string-decode [] h e = refl
decode_string-decode (c ∷ []) h e = absurd (omega arith)
decode_string-decode (c ∷ d ∷ text) (hc, (hd, h)) e =
    let (vc, _) = digit_value c hc in
    let (vd, _) = digit_value d hd in
    let byte : bit_or (hex_value c * 2 ^ 4) (hex_value d) % 2 ^ 8 ≡ hex_value c * 16 + hex_value d =
      omega (arith, or_fields 4 (hex_value c) (hex_value d) vd) in
    rw (from_hex_lem c hc, from_hex_lem d hd, decode_string-decode text h (omega arith), byte) refl

bytes_from_lem : (n i : ℕ) → bytes_from n i ≡ identity_from n i
unfolding bytes_from identity_from
bytes_from_lem zero i = refl
bytes_from_lem (suc n) i = ap (λ l. i ∷ l) (bytes_from_lem n (i + 1))

mix_lem : (key : List ℕ) (left i j : ℕ) (s : List ℕ) → mix key left i j s ≡ schedule key left i j s
unfolding mix schedule swap
mix_lem key zero i j s = refl
mix_lem key (suc left) i j s =
    let j' = (j + get_or s i 0 + get_or key (i % length key) 0) % 256 in
    mix_lem key left (i + 1) j' (swap s i j')

-- Both take the key byte at the same place, the script after the swap and Go before it.
key_place :
    (i j : ℕ) (s : List ℕ)
    → i < 256
    → j < 256
    → IsSbox s
    → (get_or (swap s i j) i 0 + get_or (swap s i j) j 0) % 256
      ≡ (get_or s i 0 + get_or s j 0) % 256
key_place i j s p q v = ground (arith, v.full, get_or-swap s i j i, get_or-swap s i j j)

crypt_lem :
    (message : Text) (i j : ℕ) (s : List ℕ)
    → IsSbox s
    → IsBytes message
    → xor_with message (key_stream (length message) i j s) ≡ crypt message i j s
unfolding xor_with key_stream crypt swap
crypt_lem [] i j s v h = refl
crypt_lem (c ∷ message) i j s v (hc, h) =
    let i' = (i + 1) % 256 in
    let j' = (j + get_or s i' 0) % 256 in
    let s' = swap s i' j' in
    let v' : IsSbox s' = swap-IsSbox i' j' (omega arith) (omega arith) v in
    let k = get_or s' ((get_or s i' 0 + get_or s j' 0) % 256) 0 in
    let small : char_unit (bit_xor c k) ≡ bit_xor c k =
      mod-eq_of_lt
        (omega (arith, xor_lt 8 c k hc (v'.bytes ((get_or s i' 0 + get_or s j' 0) % 256)))) in
    let same : char_unit (bit_xor c (get_or s' ((get_or s' i' 0 + get_or s' j' 0) % 256) 0))
        ≡ bit_xor c k =
      ap (λ (t : ℕ). char_unit (bit_xor c (get_or s' t 0)))
        (key_place i' j' s (omega arith) (omega arith) v)
      ∙ small in
    ap₂ ◌∷◌ (sym same) (crypt_lem message i' j' s' v' h)

-- On bytes Go's cipher and the script's agree for every one-byte key.
pub xor_key_stream-rc4 :
    (k : ℕ) (message : Text)
    → IsBytes message
    → (cipher : List ℕ) × (new_cipher (k ∷ []) ≡ some cipher)
      × (rc4 (k ∷ []) message ≡ some (xor_key_stream cipher message))
unfolding new_cipher xor_key_stream rc4
xor_key_stream-rc4 k message h =
    let start : mix (k ∷ []) 256 0 0 (bytes_from 256 0) ≡ sbox (k ∷ []) =
      unfold sbox in rw (bytes_from_lem 256 0) (mix_lem (k ∷ []) 256 0 0 (identity_from 256 0)) in
    (
      sbox (k ∷ []),
      ap some start,
      ap some (sym (crypt_lem message 0 0 (sbox (k ∷ [])) (sbox-IsSbox (k ∷ [])) h)),
    )

some_value : {a b : List ℕ} → some a ≡ some b → a ≡ b
some_value e = cc

-- The cipher text of Go's cipher: bytes, as many as were given.
pub xor_key_stream-IsBytes :
    (k : ℕ) (message : Text)
    → IsBytes message
    → (cipher : List ℕ) × (new_cipher (k ∷ []) ≡ some cipher)
      × (rc4 (k ∷ []) message ≡ some (xor_key_stream cipher message))
      × IsBytes (xor_key_stream cipher message)
      × (length (xor_key_stream cipher message) ≡ length message)
xor_key_stream-IsBytes k message h =
    let (cipher, made, hidden) = xor_key_stream-rc4 k message h in
    let (out, is, bytes, len) = rc4-IsBytes (k ∷ []) message (λ e. cc) h in
    let same : out ≡ xor_key_stream cipher message = some_value (sym is ∙ hidden) in
    (cipher, made, hidden, rw same at bytes, ap length (sym same) ∙ len)

abbrev pub marked_alphabet : Text
marked_alphabet = own_alphabet ++ codes "="

abbrev same_letter : ℕ → Bool
same_letter k = get_or marked_alphabet k 0 == get_or custom_alphabet k 0

letter_table : all_below 64 same_letter ≡ true
unfolding all_below
letter_table = refl

letter_lem : (k : ℕ) → k < 64 → char_at marked_alphabet k ≡ get_or custom_alphabet k 0 ∷ []
letter_lem k h =
    char_at_lem marked_alphabet k (omega arith)
    ∙ ap (λ (c : ℕ). c ∷ []) ((==_iff _ _).0 (all_below_sound 64 same_letter k letter_table h))

-- On bytes in whole groups of three the script's coder with its own alphabet agrees with Go's.
pub encode-encode_to_string :
    (bytes : Text)
    → IsBytes bytes
    → length bytes % 3 ≡ 0
    → encode marked_alphabet (codes "=") bytes ≡ encode_to_string bytes
unfolding encode encode_to_string
encode-encode_to_string [] h e = refl
encode-encode_to_string (a ∷ []) h e = absurd (omega arith)
encode-encode_to_string (a ∷ b ∷ []) h e = absurd (omega arith)
encode-encode_to_string (a ∷ b ∷ c ∷ bytes) (ha, (hb, (hc, h))) e =
    let v = a * 2 ^ 16 + b * 2 ^ 8 + c in
    rw
      (
        group_lem a b c ha hb hc,
        digit₁_lem v,
        digit₂_lem v,
        digit₃_lem v,
        digit₄_lem v,
        letter_lem (v / 2 ^ 18 % 64) (omega arith),
        letter_lem (v / 2 ^ 12 % 64) (omega arith),
        letter_lem (v / 2 ^ 6 % 64) (omega arith),
        letter_lem (v % 64) (omega arith),
        encode-encode_to_string bytes h (omega arith),
      )
      refl
