-- ===== src/Prelude/Int.antt =====
-- Whole numbers, as the values of signed machine words. `negsuc n` is -(n + 1).
use Prim.Native.Nat.{ℕ, ◌-◌, ◌^◌}
use douyin_live.Prelude.{if◌then◌else◌, ltb}

pub data ℤ : Type 0 where
  pos : ℕ → ℤ
  negsuc : ℕ → ℤ

-- The word `u` of `k + 1` bits, read with its sign.
unfoldable pub signed : ℕ → ℕ → ℤ
signed k u = if ltb u (2 ^ k) then pos u else negsuc (2 ^ k - 1 - (u - 2 ^ k))
