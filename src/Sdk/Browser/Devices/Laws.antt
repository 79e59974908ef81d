-- ===== src/Sdk/Browser/Devices/Laws.antt =====
-- The report on the time zone.
use douyin_live.Prelude.{ℕ, ◌≡◌, refl, ap₂, ◌∙◌, arith}
use douyin_live.Prelude.Int.{ℤ, pos, negsuc}
use douyin_live.Sdk.Browser.Devices.{min_int, negate, time_zone}

min_int_comm : (a b : ℤ) → min_int a b ≡ min_int b a
unfolding min_int
min_int_comm (pos m) (pos n) = ground arith
min_int_comm (pos m) (negsuc n) = refl
min_int_comm (negsuc m) (pos n) = refl
min_int_comm (negsuc m) (negsuc n) = ground arith

-- The report of the time zone is the same on both halves of the earth: it does not matter which of
-- the two months has the summer time.
time_zone_swap :
    (offset other : ℕ → ℤ)
    → offset 5 ≡ other 11
    → offset 11 ≡ other 5
    → time_zone offset ≡ time_zone other
unfolding time_zone
time_zone_swap offset other june december =
    ap₂ (λ a b. min_int (negate a) (negate b)) june december
    ∙ min_int_comm (negate (other 11)) (negate (other 5))
