-- ===== src/Sdk/Bogus/Judgement.antt =====
-- What `_0x26d461` reports of the user's behaviour.
use douyin_live.Prelude.{ℕ, ◌+◌, ◌≡◌, false, ◌==◌, arith, if◌then◌else◌, not, ◌&&◌}
use douyin_live.Sdk.Bogus.{Behaviour, judge, ubcode}

-- The flags of a behaviour, each a sum of its own.
pub flag_sum : Behaviour → ℕ
flag_sum b =
    (if not b.touch_supported && b.touch_seen then 64 else 0)
    + (if b.moves == 0 then 2 else if b.moves_fast then 16 else 0)
    + (if b.clicks == 0 then 4 else 0)
    + (if b.keys == 0 then 8 else if b.keys_fast then 32 else 0)

-- Each test adds its flag to both numbers: the code is one more than the stored `ubcode`, which is
-- the sum of the flags of the tests that hold.
pub judge_lem : (b : Behaviour) → (ubcode b ≡ flag_sum b) × ((judge b).0 ≡ flag_sum b + 1)
unfolding ubcode judge flag_sum
judge_lem b = ground arith

-- Without any event, and without a touch event that cannot be, the stored value is 14.
pub ubcode_idle :
    (b : Behaviour)
    → b.moves ≡ 0
    → b.clicks ≡ 0
    → b.keys ≡ 0
    → (not b.touch_supported && b.touch_seen) ≡ false
    → ubcode b ≡ 14
unfolding ubcode judge
ubcode_idle b m c k f = ground arith
