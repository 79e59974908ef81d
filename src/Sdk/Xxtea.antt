-- ===== src/Sdk/Xxtea.antt =====
-- jsScript/webmssdk.js, lines 4214 to 4285: the block cipher of the script (corrected block TEA).
-- `_0x3d58e7` encrypts an array of 32-bit words in place, `_0x4aaf04` decrypts it. A word stands
-- for its 32-bit pattern, so `_0x25c901` (`0xffffffff & n`) is the remainder by 2 ^ 32; the
-- subtraction adds 2 ^ 32 first, since `-` on ℕ stops at 0. A variable that a loop carries is an
-- argument of the loop.
pub mod Step
pub mod Pass
pub mod Inverse
mod Tests
use douyin_live.Prelude.{
  ℕ, zero, suc, ◌+◌, ◌-◌, ◌*◌, ◌/◌, ◌%◌, ◌^◌, List, [], ◌∷◌, Option, none, some, ◌==◌,
  if◌then◌else◌, length, get_or, set, bit_and, bit_xor,
}

abbrev pub delta : ℕ
delta = 0x9e3779b9

-- `_0x38d33e(sum, y, z, p, e, k)`
unfoldable pub mx : ℕ → ℕ → ℕ → ℕ → ℕ → List ℕ → ℕ
mx sum y z p e k =
    bit_xor
      ((bit_xor (z / 2 ^ 5) (y * 2 ^ 2 % 2 ^ 32) + bit_xor (y / 2 ^ 3) (z * 2 ^ 4 % 2 ^ 32))
        % 2 ^ 32)
      ((bit_xor sum y + bit_xor (get_or k (bit_xor (bit_and 3 p) e) 0) z) % 2 ^ 32)

-- `sum >>> 2 & 3`
unfoldable pub phase : ℕ → ℕ
phase sum = bit_and (sum / 2 ^ 2) 3

module _ (key : List ℕ) where
  -- `for (p = 0; p < n; ++p)`, with the rounds left; returns `z` and the array.
  unfoldable pub encrypt_words : ℕ → ℕ → ℕ → ℕ → List ℕ → ℕ × List ℕ
  encrypt_words sum zero p z v = (z, v)
  encrypt_words sum (suc left) p z v =
      let y = get_or v (suc p) 0 in
      let w = (get_or v p 0 + mx sum y z p (phase sum) key) % 2 ^ 32 in
      encrypt_words sum left (suc p) w (set v p w)

  -- One pass over the array and its last word.
  unfoldable pub encrypt_pass : ℕ → ℕ → List ℕ → ℕ × List ℕ
  encrypt_pass sum z v =
      let last = length v - 1 in
      let r = encrypt_words sum last 0 z v in
      let y = get_or r.1 0 0 in
      let w = (get_or r.1 last 0 + mx sum y r.0 last (phase sum) key) % 2 ^ 32 in
      (w, set r.1 last w)

  -- The outer loop.
  unfoldable pub encrypt_passes : ℕ → ℕ → ℕ → List ℕ → List ℕ
  encrypt_passes zero sum z v = v
  encrypt_passes (suc q) sum z v =
      let sum' = (sum + delta) % 2 ^ 32 in
      let r = encrypt_pass sum' z v in encrypt_passes q sum' r.0 r.1

  -- `for (p = n; p > 0; --p)`; returns `y` and the array.
  pub decrypt_words : ℕ → ℕ → ℕ → List ℕ → ℕ × List ℕ
  decrypt_words sum zero y v = (y, v)
  decrypt_words sum (suc p) y v =
      let z = get_or v p 0 in
      let w = (get_or v (suc p) 0 + 2 ^ 32 - mx sum y z (suc p) (phase sum) key) % 2 ^ 32 in
      decrypt_words sum p w (set v (suc p) w)

  -- The word 0, after the loop.
  pub decrypt_first : ℕ → ℕ → ℕ × List ℕ → ℕ × List ℕ
  decrypt_first sum last (y, v) =
      let z = get_or v last 0 in
      let w = (get_or v 0 0 + 2 ^ 32 - mx sum y z 0 (phase sum) key) % 2 ^ 32 in (w, set v 0 w)

  pub decrypt_pass : ℕ → ℕ → List ℕ → ℕ × List ℕ
  decrypt_pass sum y v =
      let last = length v - 1 in decrypt_first sum last (decrypt_words sum last y v)

  -- The loop until the sum is 0, on fuel; `none` when it runs out.
  pub decrypt_passes : ℕ → ℕ → ℕ → List ℕ → Option (List ℕ)
  decrypt_passes zero sum y v = if sum == 0 then some v else none
  decrypt_passes (suc fuel) sum y v =
      let r = decrypt_pass sum y v in
      let rest = decrypt_passes fuel ((sum + 2 ^ 32 - delta) % 2 ^ 32) r.0 r.1 in
      if sum == 0 then some v else rest

-- `Math.floor(6 + 52 / n)`. For the empty array the quotient is infinite, and `0 |` of it and
-- `0xffffffff &` of its product are 0.
unfoldable pub rounds : ℕ → ℕ
rounds zero = 0
rounds (suc n) = 6 + 52 / suc n

unfoldable pub encrypt : List ℕ → List ℕ → List ℕ
encrypt v key = encrypt_passes key (rounds (length v)) 0 (get_or v (length v - 1) 0) v

-- At most 58 rounds, so a fuel of 58 is enough.
pub decrypt : List ℕ → List ℕ → Option (List ℕ)
decrypt v key = decrypt_passes key 58 (rounds (length v) * delta % 2 ^ 32) (get_or v 0 0) v
