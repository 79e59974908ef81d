-- ===== src/Sdk/Vm/Loader/Numbers.antt =====
-- Numbers in digits and in bytes of varying number are read back.
use douyin_live.Prelude.{
  ℕ, zero, suc, ◌+◌, ◌*◌, ◌/◌, ◌%◌, ◌^◌, ◌<◌, ◌≡◌, refl, sym, ◌∙◌, ap, Bool, true, false, ◌&&◌, ◌∷◌,
  ◌++◌, some, arith, inl, inr, Bool-cases, ltb, ◌==◌, ==_iff, length, get_or, take, drop, all_below,
  all_below_sound, mask_and, bit_and, append_assoc,
}
use native.Mathlib.Nat.{pow-suc, div-add-mod, mod-eq_of_lt, div-div-eq-div-mul}
use douyin_live.Sdk.Text.{Text}
use douyin_live.Sdk.Hex.{hex_digits}
use douyin_live.Sdk.Vm.Loader.{
  is_digit, digit_value, parse_from, parse_hex, read_hex, add_hex, read_varint,
}
use douyin_live.Sdk.Vm.Loader.Assemble.{hex_text, varint}

abbrev digit_reads_back : ℕ → Bool
digit_reads_back d = is_digit (get_or hex_digits d 0) && (digit_value (get_or hex_digits d 0) == d)

digit_table : all_below 16 digit_reads_back ≡ true
unfolding all_below is_digit digit_value
digit_table = refl

both_true : (a b : Bool) → (a && b) ≡ true → (a ≡ true) × (b ≡ true)
both_true true b e = (refl, e)
both_true false b e = cc

digit_round :
    (d : ℕ)
    → d < 16
    → (is_digit (get_or hex_digits d 0) ≡ true) × (digit_value (get_or hex_digits d 0) ≡ d)
digit_round d h =
    let table = both_true _ _ (all_below_sound 16 digit_reads_back d digit_table h) in
    (table.0, (==_iff _ d).0 table.1)

-- A digit more: the remainder by a power of 16 that is one higher.
place :
    (k acc n : ℕ)
    → (acc * 16 + n / 16 ^ k % 16) * 16 ^ k + n % 16 ^ k ≡ acc * 16 ^ suc k + n % 16 ^ suc k
place k acc n =
    let p = 16 ^ k in
    let q = n / p in
    let parts : p * q ≡ p * (16 * (q / 16) + q % 16) = ap (λ (t : ℕ). p * t) (omega arith) in
    let higher : p * 16 * (n / (p * 16)) ≡ p * 16 * (q / 16) =
      ap (λ (t : ℕ). p * 16 * t) (sym (div-div-eq-div-mul n p 16)) in
    rw (pow-suc 16 k) (omega (arith, parts, higher, div-add-mod n p, div-add-mod n (p * 16)))

-- The digits of a number are read behind a number that is there.
digits_lem : (k acc n : ℕ) → parse_from acc (hex_text k n) ≡ acc * 16 ^ k + n % 16 ^ k
unfolding hex_text parse_from
digits_lem zero acc n = omega arith
digits_lem (suc k) acc n =
    let d = n / 16 ^ k % 16 in
    let digit = digit_round d (omega arith) in
    rw (digit.0, digit.1, digits_lem k (acc * 16 + d) n) (place k acc n)

pub length-hex_text : (k n : ℕ) → length (hex_text k n) ≡ k
unfolding hex_text
length-hex_text zero n = refl
length-hex_text (suc k) n = ap suc (length-hex_text k n)

pub take-hex_text : (k n : ℕ) (rest : Text) → take k (hex_text k n ++ rest) ≡ hex_text k n
unfolding hex_text
take-hex_text zero n rest = refl
take-hex_text (suc k) n rest =
    ap (λ t. get_or hex_digits (n / 16 ^ k % 16) 0 ∷ t) (take-hex_text k n rest)

pub drop-hex_text : (k n : ℕ) (rest : Text) → drop k (hex_text k n ++ rest) ≡ rest
unfolding hex_text
drop-hex_text zero n rest = refl
drop-hex_text (suc k) n rest = drop-hex_text k n rest

parse_whole : (k n : ℕ) → n < 16 ^ suc k → parse_hex (hex_text (suc k) n) ≡ some n
unfolding parse_hex hex_text
parse_whole k n h =
    let digit = digit_round (n / 16 ^ k % 16) (omega arith) in
    rw digit.0 (ap some (digits_lem (suc k) 0 n ∙ omega (arith, mod-eq_of_lt h)))

pub parse_hex_lem :
    (k n : ℕ) (rest : Text)
    → n < 16 ^ suc k
    → parse_hex (take (suc k) (hex_text (suc k) n ++ rest)) ≡ some n
parse_hex_lem k n rest h = ap parse_hex (take-hex_text (suc k) n rest) ∙ parse_whole k n h

pub read_hex_lem :
    (k n : ℕ) (rest : Text) → n < 16 ^ suc k → read_hex (suc k) (hex_text (suc k) n ++ rest) ≡ n
unfolding read_hex
read_hex_lem k n rest h = rw (read_hex, parse_hex_lem k n rest h) refl

add_hex_lem :
    (high n low : ℕ) (text : Text)
    → parse_hex (take n text) ≡ some low
    → add_hex high n text ≡ high + low
unfolding add_hex
add_hex_lem high n low text e = rw (add_hex, e) refl

module _ (text : Text) (a b : ℕ) (small : a < 64) where
  read_varint_two :
      read_hex 2 text ≡ 128 + a
      → parse_hex (take 2 (drop 2 text)) ≡ some b
      → read_varint text ≡ (2, a * 2 ^ 8 + b)
  unfolding read_varint
  read_varint_two first second =
      let top : ((128 + a) / 2 ^ 7 == 0) ≡ false = ground arith in
      let mark : ((128 + a) / 2 ^ 6 == 2) ≡ true = ground arith in
      let low : (128 + a) % 2 ^ 6 ≡ a = omega arith in
      let sum = add_hex_lem (bit_and 63 (128 + a) * 2 ^ 8) 2 b (drop 2 text) second in
      rw (first, top, mark, sum, mask_and 6 (128 + a), low) refl

  read_varint_three :
      read_hex 2 text ≡ 192 + a
      → parse_hex (take 4 (drop 2 text)) ≡ some b
      → read_varint text ≡ (3, a * 2 ^ 16 + b)
  unfolding read_varint
  read_varint_three first second =
      let top : ((192 + a) / 2 ^ 7 == 0) ≡ false = ground arith in
      let mark : ((192 + a) / 2 ^ 6 == 2) ≡ false = ground arith in
      let low : (192 + a) % 2 ^ 6 ≡ a = omega arith in
      let sum = add_hex_lem (bit_and 63 (192 + a) * 2 ^ 16) 4 b (drop 2 text) second in
      rw (first, top, mark, sum, mask_and 6 (192 + a), low) refl

read_varint_one : (text : Text) (n : ℕ) → n < 128 → read_hex 2 text ≡ n → read_varint text ≡ (1, n)
unfolding read_varint
read_varint_one text n h first =
    let top : (n / 2 ^ 7 == 0) ≡ true = ground arith in rw (first, top) refl

-- The bytes of a number are read as the number, and what follows them is left.
pub read_varint-varint :
    (n : ℕ) (rest : Text)
    → n < 2 ^ 22
    → (size : ℕ) × (read_varint (varint n ++ rest) ≡ (size, n))
      × (drop (2 * size) (varint n ++ rest) ≡ rest)
unfolding varint
read_varint-varint n rest h = elim (Bool-cases (ltb n 128)) [
  | inl small ↦ rw small (
    1,
    read_varint_one (hex_text 2 n ++ rest) n (ground arith) (read_hex_lem 1 n rest (ground arith)),
    drop-hex_text 2 n rest,
  )
  | inr large ↦ elim (Bool-cases (ltb n (2 ^ 14))) [
    | inl small ↦
        let below : n < 2 ^ 14 = ground arith in
        let a = n / 2 ^ 8 in
        let b = n % 2 ^ 8 in
        let more = hex_text 2 b ++ rest in
        let value : a * 2 ^ 8 + b ≡ n = omega arith in
        let second : parse_hex (take 2 (drop 2 (hex_text 2 (128 + a) ++ more))) ≡ some b =
          ap (λ t. parse_hex (take 2 t)) (drop-hex_text 2 (128 + a) more)
          ∙ parse_hex_lem 1 b rest (omega arith) in
        rw (large, small, append_assoc (hex_text 2 (128 + a)) (hex_text 2 b) rest)
          (
            2,
            read_varint_two (hex_text 2 (128 + a) ++ more) a b (omega arith)
                  (read_hex_lem 1 (128 + a) more (omega arith)) second
                ∙ ap (λ v. (2, v)) value,
            unfold hex_text in refl,
          )
    | inr larger ↦
        let a = n / 2 ^ 16 in
        let b = n % 2 ^ 16 in
        let more = hex_text 4 b ++ rest in
        let value : a * 2 ^ 16 + b ≡ n = omega arith in
        let second : parse_hex (take 4 (drop 2 (hex_text 2 (192 + a) ++ more))) ≡ some b =
          ap (λ t. parse_hex (take 4 t)) (drop-hex_text 2 (192 + a) more)
          ∙ parse_hex_lem 3 b rest (omega arith) in
        rw (large, larger, append_assoc (hex_text 2 (192 + a)) (hex_text 4 b) rest)
          (
            3,
            read_varint_three (hex_text 2 (192 + a) ++ more) a b (omega arith)
                  (read_hex_lem 1 (192 + a) more (omega arith)) second
                ∙ ap (λ v. (3, v)) value,
            unfold hex_text in refl,
          )
  ]
]
