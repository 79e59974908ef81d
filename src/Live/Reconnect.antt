-- ===== src/Live/Reconnect.antt =====
-- reconnect.go, lines 13 to 107: which read errors are followed by a reconnection, and after what
-- delay. A delay is a number of nanoseconds in a signed word of 64 bits.
pub mod Delays
use douyin_live.Prelude.{
  ℕ, zero, suc, ◌-◌, ◌*◌, ◌%◌, ◌^◌, Bool, true, false, ◌&&◌, not, ◌==◌, leb, ltb, if◌then◌else◌,
}
use douyin_live.Prelude.Int.{ℤ, pos, negsuc, signed}

pub data Reason : Type 0 where
  manual_close close_sent normal_close abnormal_close try_again_later service_restart : Reason
  going_away policy_violation invalid_frame_payload network_or_unknown : Reason
  close_code : ℕ → Reason

abbrev pub second : ℕ
second = 10 ^ 9

-- 1500 milliseconds.
abbrev pub base_reconnect_delay : ℕ
base_reconnect_delay = 15 * 10 ^ 8

abbrev pub max_reconnect_delay : ℕ
max_reconnect_delay = 60 * second

pub record Plan : Type 0 where
  pub delay : ℤ
  pub change_ua : Bool
  pub rebuild_http : Bool

-- `n < d` for a number of nanoseconds that is not negative.
unfoldable pub exceeds : ℤ → ℕ → Bool
exceeds (pos d) n = ltb n d
exceeds (negsuc d) n = false

-- `max(delay, n)`
unfoldable pub at_least : ℕ → ℤ → ℤ
at_least n (pos d) = if ltb d n then pos n else pos d
at_least n (negsuc d) = pos n

-- `baseDelay * (1 << (failureCount - 1))` wraps around.
unfoldable pub exponential_delay : ℕ → ℕ → ℤ
exponential_delay base count = signed 63 (base * 2 ^ (count - 1) % 2 ^ 64)

unfoldable pub backoff : ℕ → ℕ → ℤ
unfolding exponential_delay exceeds
backoff base count =
    if ltb 1 count
    then (if exceeds (exponential_delay base count) max_reconnect_delay
        then pos max_reconnect_delay
        else exponential_delay base count)
    else pos base

unfoldable pub delay_for : Reason → ℤ → ℤ
unfolding at_least
delay_for try_again_later delay = at_least (5 * second) delay
delay_for service_restart delay = at_least (3 * second) delay
delay_for going_away delay = at_least (2 * second) delay
delay_for reason delay = delay

unfoldable pub changes_ua : Reason → Bool → Bool
changes_ua try_again_later change = true
changes_ua reason change = change

-- `reconnectPlan`: whether a cookie is configured, the reason, the count of failures, the base
-- delay, and whether the user agent may change.
unfoldable pub reconnect_plan : Bool → Reason → ℕ → ℕ → Bool → Plan
unfolding backoff delay_for changes_ua
reconnect_plan has_cookie reason count base allow =
    let allowed = if has_cookie then false else allow in
    record {
      delay = delay_for reason (backoff base count);
      change_ua =
          if allowed then changes_ua reason (if leb count 1 then false else allowed) else false;
      rebuild_http = if leb count 1 then false else if leb count 3 then false else true;
    }

pub data ReadError : Type 0 where
  sent_close other_error : ReadError
  close_frame : ℕ → ReadError

pub record Decision : Type 0 where
  pub reason : Reason
  pub should_retry : Bool
  pub base_delay : ℕ
  pub allow_ua : Bool

abbrev pub stop_for : Reason → Decision
stop_for why = record { reason = why; should_retry = false; base_delay = 0; allow_ua = false }

abbrev pub retry_for : Reason → ℕ → Bool → Decision
retry_for why delay allow = record {
  reason = why;
  should_retry = true;
  base_delay = delay;
  allow_ua = allow;
}

-- The codes are those of RFC 6455.
unfoldable pub decide_close : ℕ → Decision
decide_close code =
    if code == 1000
    then stop_for normal_close
    else if code == 1006
    then retry_for abnormal_close base_reconnect_delay true
    else if code == 1013
    then retry_for try_again_later (5 * second) true
    else if code == 1012
    then retry_for service_restart (3 * second) false
    else if code == 1001
    then retry_for going_away (2 * second) false
    else if code == 1008
    then stop_for policy_violation
    else if code == 1007
    then stop_for invalid_frame_payload
    else retry_for (close_code code) base_reconnect_delay true

unfoldable pub reconnect_decision : Bool → ReadError → Decision
unfolding decide_close
reconnect_decision true e = stop_for manual_close
reconnect_decision false sent_close = stop_for close_sent
reconnect_decision false (close_frame code) = decide_close code
reconnect_decision false other_error = retry_for network_or_unknown base_reconnect_delay true
