-- ===== src/Sdk/Base64/Group.antt =====
-- The bit arithmetic of the base-64 groups, as division and remainder.
use douyin_live.Prelude.{
  ℕ, ◌+◌, ◌*◌, ◌/◌, ◌%◌, ◌^◌, ◌<◌, ◌≡◌, arith, bit_and, bit_or, and_shift, and_scaled, mask_and,
  and_mask, or_fields, ◌∙◌,
}
use douyin_live.Sdk.Base64.{group, digit₁, digit₂, digit₃, digit₄}

pub digit₁_lem : (g : ℕ) → digit₁ g ≡ g / 2 ^ 18 % 64
unfolding digit₁
digit₁_lem g = and_shift 18 0xfc0000 g ∙ mask_and 6 (g / 2 ^ 18)

pub digit₂_lem : (g : ℕ) → digit₂ g ≡ g / 2 ^ 12 % 64
unfolding digit₂
digit₂_lem g = and_shift 12 0x3f000 g ∙ mask_and 6 (g / 2 ^ 12)

pub digit₃_lem : (g : ℕ) → digit₃ g ≡ g / 2 ^ 6 % 64
unfolding digit₃
digit₃_lem g = and_shift 6 4032 g ∙ mask_and 6 (g / 2 ^ 6)

pub digit₄_lem : (g : ℕ) → digit₄ g ≡ g % 64
unfolding digit₄
digit₄_lem g = mask_and 6 g

-- A group of bytes is their number in base 256.
pub group_two :
    (a b : ℕ)
    → a < 256
    → b < 256
    → bit_or (bit_and 255 a * 2 ^ 16) (bit_and 255 b * 2 ^ 8) ≡ a * 2 ^ 16 + b * 2 ^ 8
group_two a b p q =
    ground (arith, mask_and 8 a, mask_and 8 b, or_fields 16 a (b * 2 ^ 8) (omega arith))

pub group_lem : (a b c : ℕ) → a < 256 → b < 256 → c < 256 → group a b c ≡ a * 2 ^ 16 + b * 2 ^ 8 + c
unfolding group
group_lem a b c p q r =
    ground (arith, mask_and 8 c, group_two a b p q, or_fields 8 (a * 2 ^ 8 + b) c (omega arith))

pub group_one : (a : ℕ) → a < 256 → bit_or (bit_and 255 a * 2 ^ 16) 0 ≡ a * 2 ^ 16
group_one a p = ground (arith, mask_and 8 a, or_fields 16 a 0 (omega arith))

-- What the decoder makes of digits.
pub first_byte :
    (a b : ℕ) → a < 64 → b < 64 → bit_or (a * 2 ^ 2 % 2 ^ 32) (b / 2 ^ 4) ≡ a * 4 + b / 16
first_byte a b p q = ground (arith, or_fields 2 a (b / 16) (omega arith))

pub second_byte :
    (b c : ℕ)
    → b < 64
    → c < 64
    → bit_or (bit_and (b * 2 ^ 4 % 2 ^ 32) 240) (bit_and (c / 2 ^ 2) 15) ≡ b % 16 * 16 + c / 4
second_byte b c p q = ground (
  arith,
  and_scaled 4 b 15,
  and_mask 4 b,
  and_mask 4 (c / 4),
  or_fields 4 (b % 16) (c / 4) (omega arith),
)

pub third_byte :
    (c d : ℕ) → c < 64 → d < 64 → bit_or (bit_and (c * 2 ^ 6 % 2 ^ 32) 192) d ≡ c % 4 * 64 + d
third_byte c d p q = ground (arith, and_scaled 6 c 3, and_mask 2 c, or_fields 6 (c % 4) d q)
