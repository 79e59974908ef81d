-- ===== src/Sdk/Utf8/Bytes.antt =====
-- One sequence of bytes: its value as sums, and the decoder's step on it.
use douyin_live.Prelude.{
  ℕ, ◌+◌, ◌-◌, ◌*◌, ◌/◌, ◌%◌, ◌^◌, ◌<◌, ◌≤◌, ◌≡◌, refl, ◌∙◌, ap, true, false, ◌||◌, [], ◌∷◌, arith,
  ltb, leb, ◌==◌, bit_or, mask_and, and_mask, or_fields, or_comm,
}
use douyin_live.Prelude.Result.{ok}
use douyin_live.Sdk.Text.{Text}
use douyin_live.Sdk.Utf8.{
  one, two, bytes₂, bytes₃, bytes₄, join_pair, decode₂, decode₃, decode₄, split_pair, next₂, next₃,
  next₄, next,
}

-- `m | r` where the bits of `r` lie below those of `m`.
or_low : (k q r m : ℕ) → m ≡ q * 2 ^ k → r < 2 ^ k → bit_or m r ≡ m + r
or_low k q r m e h = rw e (or_fields k q r h)

-- The payload of a byte that follows the first.
tail_byte : (x : ℕ) → bit_or 128 (x % 2 ^ 6) ≡ 128 + x % 2 ^ 6
tail_byte x = or_low 6 2 (x % 2 ^ 6) 128 (omega arith) (omega arith)

-- The bytes as sums.
pub bytes₂_lem : (c : ℕ) → c < 2048 → bytes₂ c ≡ (192 + c / 2 ^ 6) ∷ (128 + c % 2 ^ 6) ∷ []
unfolding bytes₂
bytes₂_lem c h =
    rw (mask_and 6 c, tail_byte c)
      (ap (λ b. b ∷ (128 + c % 2 ^ 6) ∷ [])
        (or_low 5 6 (c / 2 ^ 6) 192 (omega arith) (omega arith)))

pub bytes₃_lem :
    (c : ℕ)
    → c < 2 ^ 16
    → bytes₃ c ≡ (224 + c / 2 ^ 12) ∷ (128 + c / 2 ^ 6 % 2 ^ 6) ∷ (128 + c % 2 ^ 6) ∷ []
unfolding bytes₃
bytes₃_lem c h =
    rw (mask_and 6 c, and_mask 6 (c / 2 ^ 6), tail_byte c, tail_byte (c / 2 ^ 6))
      (ap (λ b. b ∷ (128 + c / 2 ^ 6 % 2 ^ 6) ∷ (128 + c % 2 ^ 6) ∷ [])
        (or_low 4 14 (c / 2 ^ 12) 224 (omega arith) (omega arith)))

pub bytes₄_lem :
    (p : ℕ)
    → p < 2 ^ 21
    → bytes₄ p
      ≡ (240 + p / 2 ^ 18)
        ∷ (128 + p / 2 ^ 12 % 2 ^ 6)
        ∷ (128 + p / 2 ^ 6 % 2 ^ 6)
        ∷ (128 + p % 2 ^ 6)
        ∷ []
unfolding bytes₄
bytes₄_lem p h =
    let top : bit_or 240 (p / 2 ^ 18 % 2 ^ 6) ≡ 240 + p / 2 ^ 18 =
      or_low 3 30 (p / 2 ^ 18 % 2 ^ 6) 240 (omega arith) (omega arith) ∙ omega arith in
    rw
      (
        mask_and 6 p,
        and_mask 6 (p / 2 ^ 6),
        and_mask 6 (p / 2 ^ 12),
        and_mask 6 (p / 2 ^ 18),
        tail_byte p,
        tail_byte (p / 2 ^ 6),
        tail_byte (p / 2 ^ 12),
        top,
      )
      refl

-- The payloads put together.
decode₂_lem : (x y : ℕ) → x < 2 ^ 5 → y < 2 ^ 6 → decode₂ (192 + x) (128 + y) ≡ x * 2 ^ 6 + y
unfolding decode₂
decode₂_lem x y hx hy =
    let ex : (192 + x) % 2 ^ 5 ≡ x = omega arith in
    let ey : (128 + y) % 2 ^ 6 ≡ y = omega arith in
    rw (mask_and 5 (192 + x), mask_and 6 (128 + y), ex, ey) (or_fields 6 x y hy)

decode₃_lem :
    (x y z : ℕ)
    → x < 2 ^ 4
    → y < 2 ^ 6
    → z < 2 ^ 6
    → decode₃ (224 + x) (128 + y) (128 + z) ≡ x * 2 ^ 12 + y * 2 ^ 6 + z
unfolding decode₃
decode₃_lem x y z hx hy hz =
    let ex : (224 + x) % 2 ^ 4 ≡ x = omega arith in
    let ey : (128 + y) % 2 ^ 6 ≡ y = omega arith in
    let ez : (128 + z) % 2 ^ 6 ≡ z = omega arith in
    rw (mask_and 4 (224 + x), mask_and 6 (128 + y), mask_and 6 (128 + z), ex, ey, ez)
      (rw (or_fields 12 x (y * 2 ^ 6) (omega arith))
        (or_low 6 (x * 2 ^ 6 + y) z (x * 2 ^ 12 + y * 2 ^ 6) (omega arith) hz))

decode₄_lem :
    (x y z w : ℕ)
    → x < 2 ^ 3
    → y < 2 ^ 6
    → z < 2 ^ 6
    → w < 2 ^ 6
    → decode₄ (240 + x) (128 + y) (128 + z) (128 + w) ≡ x * 2 ^ 18 + y * 2 ^ 12 + z * 2 ^ 6 + w
unfolding decode₄
decode₄_lem x y z w hx hy hz hw =
    let ex : (240 + x) % 2 ^ 3 ≡ x = omega arith in
    let ey : (128 + y) % 2 ^ 6 ≡ y = omega arith in
    let ez : (128 + z) % 2 ^ 6 ≡ z = omega arith in
    let ew : (128 + w) % 2 ^ 6 ≡ w = omega arith in
    let upper : bit_or (bit_or (x * 2 ^ 18) (y * 2 ^ 12)) (z * 2 ^ 6)
        ≡ x * 2 ^ 18 + y * 2 ^ 12 + z * 2 ^ 6 =
      rw (or_fields 18 x (y * 2 ^ 12) (omega arith)) (
        or_low 12 (x * 2 ^ 6 + y) (z * 2 ^ 6) (x * 2 ^ 18 + y * 2 ^ 12) (omega arith)
          (omega arith)) in
    rw
      (
        mask_and 3 (240 + x),
        mask_and 6 (128 + y),
        mask_and 6 (128 + z),
        mask_and 6 (128 + w),
        ex,
        ey,
        ez,
        ew,
      )
      (rw upper (
        or_low 6 (x * 2 ^ 12 + y * 2 ^ 6 + z) w (x * 2 ^ 18 + y * 2 ^ 12 + z * 2 ^ 6) (omega arith)
          hw))

-- A pair of surrogates as a code point, and back.
pub join_pair_lem :
    (high low : ℕ) → join_pair high low ≡ 65536 + (high % 2 ^ 10 * 2 ^ 10 + low % 2 ^ 10)
unfolding join_pair
join_pair_lem high low =
    rw (mask_and 10 high, mask_and 10 low)
      (ap (λ (t : ℕ). 65536 + t) (or_fields 10 (high % 2 ^ 10) (low % 2 ^ 10) (omega arith)))

split_pair_lem :
    (high low : ℕ)
    → 55296 ≤ high
    → high < 56320
    → 56320 ≤ low
    → low ≤ 57343
    → split_pair (65536 + (high % 2 ^ 10 * 2 ^ 10 + low % 2 ^ 10)) ≡ ok (two high low)
unfolding split_pair
split_pair_lem high low a b c d =
    let h = high % 2 ^ 10 in
    let l = low % 2 ^ 10 in
    let p : 65536 + (h * 2 ^ 10 + l) - 65536 ≡ h * 2 ^ 10 + l = omega arith in
    let low_end : leb 65536 (65536 + (h * 2 ^ 10 + l)) ≡ true = ground arith in
    let high_end : leb (h * 2 ^ 10 + l) 1048575 ≡ true = ground arith in
    let top : (h * 2 ^ 10 + l) / 2 ^ 10 % 2 ^ 10 ≡ h = omega arith in
    let bottom : (h * 2 ^ 10 + l) % 2 ^ 10 ≡ l = omega arith in
    let high_unit : bit_or h 55296 ≡ high =
      or_comm h 55296 ∙ (or_low 10 54 h 55296 (omega arith) (omega arith) ∙ omega arith) in
    let low_unit : bit_or l 56320 ≡ low =
      or_comm l 56320 ∙ (or_low 10 55 l 56320 (omega arith) (omega arith) ∙ omega arith) in
    rw
      (
        p,
        low_end,
        high_end,
        and_mask 10 ((h * 2 ^ 10 + l) / 2 ^ 10),
        mask_and 10 (h * 2 ^ 10 + l),
        top,
        bottom,
        high_unit,
        low_unit,
      )
      refl

-- The step of the decoder on each kind of sequence.
pub next-bytes₂ :
    (c : ℕ) (rest : Text)
    → 128 ≤ c
    → c < 2048
    → next (192 + c / 2 ^ 6) ((128 + c % 2 ^ 6) ∷ rest) ≡ ok (one c, rest)
unfolding next next₂
next-bytes₂ c rest a b =
    let b₀ = 192 + c / 2 ^ 6 in
    let lead : (ltb (b₀ / 2 ^ 4) 8 ≡ false) × ((b₀ / 2 ^ 4 == 12 || b₀ / 2 ^ 4 == 13) ≡ true) =
      ground arith in
    let value : decode₂ b₀ (128 + c % 2 ^ 6) ≡ c =
      decode₂_lem (c / 2 ^ 6) (c % 2 ^ 6) (omega arith) (omega arith) ∙ omega arith in
    rw (lead.0, lead.1) (ap (λ u. ok (one u, rest)) value)

pub next-bytes₃ :
    (c : ℕ) (rest : Text)
    → c < 2 ^ 16
    → next (224 + c / 2 ^ 12) ((128 + c / 2 ^ 6 % 2 ^ 6) ∷ (128 + c % 2 ^ 6) ∷ rest)
      ≡ ok (one c, rest)
unfolding next next₃
next-bytes₃ c rest h =
    let b₀ = 224 + c / 2 ^ 12 in
    let lead : b₀ / 2 ^ 4 ≡ 14 = omega arith in
    let value : decode₃ b₀ (128 + c / 2 ^ 6 % 2 ^ 6) (128 + c % 2 ^ 6) ≡ c =
      decode₃_lem (c / 2 ^ 12) (c / 2 ^ 6 % 2 ^ 6) (c % 2 ^ 6) (omega arith) (omega arith)
        (omega arith)
      ∙ omega arith in
    rw lead (ap (λ u. ok (one u, rest)) value)

pub next-bytes₄ :
    (high low : ℕ) (rest : Text)
    → 55296 ≤ high
    → high < 56320
    → 56320 ≤ low
    → low ≤ 57343
    → let p = 65536 + (high % 2 ^ 10 * 2 ^ 10 + low % 2 ^ 10) in
      next
        (240 + p / 2 ^ 18)
        ((128 + p / 2 ^ 12 % 2 ^ 6) ∷ (128 + p / 2 ^ 6 % 2 ^ 6) ∷ (128 + p % 2 ^ 6) ∷ rest)
      ≡ ok (two high low, rest)
unfolding next next₄
next-bytes₄ high low rest a b c d =
    let p = 65536 + (high % 2 ^ 10 * 2 ^ 10 + low % 2 ^ 10) in
    let lead : (240 + p / 2 ^ 18) / 2 ^ 4 ≡ 15 = omega arith in
    let value : decode₄ (240 + p / 2 ^ 18) (128 + p / 2 ^ 12 % 2 ^ 6) (128 + p / 2 ^ 6 % 2 ^ 6)
          (128 + p % 2 ^ 6)
        ≡ p =
      decode₄_lem (p / 2 ^ 18) (p / 2 ^ 12 % 2 ^ 6) (p / 2 ^ 6 % 2 ^ 6) (p % 2 ^ 6) (omega arith)
        (omega arith) (omega arith) (omega arith)
      ∙ omega arith in
    rw (lead, value, split_pair_lem high low a b c d) refl
