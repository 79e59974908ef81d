-- ===== src/Live/Reconnect/Delays.antt =====
-- The delay of a reconnection against the formula of its comment, and where it overflows.
use native.Mathlib.Nat.{pow-le-pow_right, pow-suc, mul_assoc, mul-le-mul}
use douyin_live.Prelude.{
  ℕ, zero, suc, ◌+◌, ◌-◌, ◌*◌, ◌%◌, ◌^◌, ◌≤◌, ◌<◌, ◌≡◌, refl, sym, ap, ◌∙◌, Bool, ltb,
  if◌then◌else◌, arith, Bool-cases, lt→ltb, inl, inr,
}
use douyin_live.Prelude.Int.{pos, signed}
use douyin_live.Live.Reconnect.{
  Reason, try_again_later, service_restart, going_away, second, max_reconnect_delay, exceeds,
  exponential_delay, backoff, delay_for, reconnect_plan,
}

-- The least delay for a reason.
abbrev pub least_delay : Reason → ℕ
least_delay try_again_later = 5 * second
least_delay service_restart = 3 * second
least_delay going_away = 2 * second
least_delay reason = 0

pub larger : ℕ → ℕ → ℕ
larger m n = if ltb m n then n else m

pub smaller : ℕ → ℕ → ℕ
smaller m n = if ltb m n then m else n

small_product :
    (base count : ℕ) → count ≤ 28 → base ≤ max_reconnect_delay → base * 2 ^ (count - 1) < 2 ^ 63
small_product base count few h =
    let power : 2 ^ (count - 1) ≤ 2 ^ 27 =
      pow-le-pow_right {n = 2} (omega arith) {i = count - 1} {j = 27} (omega arith) in
    let product : base * 2 ^ (count - 1) ≤ max_reconnect_delay * 2 ^ 27 = mul-le-mul h power in
    omega arith

exponential_delay_small :
    (base count : ℕ)
    → base * 2 ^ (count - 1) < 2 ^ 63
    → exponential_delay base count ≡ pos (base * 2 ^ (count - 1))
unfolding exponential_delay signed
exponential_delay_small base count h =
    let fits : base * 2 ^ (count - 1) % 2 ^ 64 ≡ base * 2 ^ (count - 1) = omega arith in
    rw (fits, lt→ltb _ _ h) refl

delay_for_pos :
    (reason : Reason) (d : ℕ) → delay_for reason (pos d) ≡ pos (larger (least_delay reason) d)
unfolding delay_for larger
delay_for_pos reason d = ground arith

backoff_small :
    (base count : ℕ)
    → count ≤ 28
    → base ≤ max_reconnect_delay
    → backoff base count ≡ pos (smaller (base * 2 ^ (count - 1)) max_reconnect_delay)
unfolding backoff exceeds smaller
backoff_small base count few h = elim (Bool-cases (ltb 1 count)) [
  | inl many ↦
      rw (many, exponential_delay_small base count (small_product base count few h)) (ground arith)
  | inr one ↦ let first : count - 1 ≡ 0 = ground arith in rw (one, first) (ground arith)
]

-- Up to 28 failures in a row, and for a base delay of at most a minute, the delay is the base delay
-- doubled for each failure after the first, but at most a minute, and at least what the reason
-- wants.
pub reconnect_plan_delay :
    (has_cookie : Bool) (reason : Reason) (count base : ℕ) (allow : Bool)
    → count ≤ 28
    → base ≤ max_reconnect_delay
    → (reconnect_plan has_cookie reason count base allow).delay
      ≡ pos (larger (least_delay reason) (smaller (base * 2 ^ (count - 1)) max_reconnect_delay))
unfolding reconnect_plan
reconnect_plan_delay has_cookie reason count base allow few h =
    ap (delay_for reason) (backoff_small base count few h) ∙ delay_for_pos reason _

larger-zero : (m : ℕ) → larger m 0 ≡ m
unfolding larger
larger-zero m = ground arith

wraps_to_zero : (base k : ℕ) → base * 2 ^ (64 + k) % 2 ^ 64 ≡ 0
wraps_to_zero base zero = omega arith
wraps_to_zero base (suc k) =
    let power : 2 ^ (64 + suc k) ≡ 2 ^ (64 + k) * 2 =
      ap (λ (t : ℕ). 2 ^ t) (omega arith) ∙ pow-suc 2 (64 + k) in
    let product : base * 2 ^ (64 + suc k) ≡ base * 2 ^ (64 + k) * 2 =
      rw power (sym (mul_assoc base (2 ^ (64 + k)) 2)) in
    omega (arith, wraps_to_zero base k)

-- From 65 failures in a row on, the doubled delay has wrapped around to 0: only what the reason
-- wants is left, which is nothing for most reasons.
pub reconnect_plan_overflow :
    (has_cookie : Bool) (reason : Reason) (count base : ℕ) (allow : Bool)
    → 65 ≤ count
    → (reconnect_plan has_cookie reason count base allow).delay ≡ pos (least_delay reason)
unfolding reconnect_plan backoff exponential_delay exceeds signed
reconnect_plan_overflow has_cookie reason count base allow many =
    let shape : count - 1 ≡ 64 + (count - 65) = omega arith in
    let zero_word : base * 2 ^ (count - 1) % 2 ^ 64 ≡ 0 =
      rw shape (wraps_to_zero base (count - 65)) in
    let zero_delay : backoff base count ≡ pos 0 =
      rw (lt→ltb 1 count (omega arith), zero_word) refl in
    ap (delay_for reason) zero_delay
    ∙ (delay_for_pos reason 0 ∙ ap pos (larger-zero (least_delay reason)))
