-- ===== src/Live.antt =====
-- The state of a listener (douyin.go, lines 20 to 45), and what live_status.go and lifecycle.go do
-- to its live status and its count of failures. Each of them runs under the listener's lock, so it
-- is one step. Logging is left out.
pub mod Lifecycle
pub mod Reconnect
pub mod Reading
mod Tests
use douyin_live.Prelude.{ℕ, suc, ◌&&◌, Bool, true, false, not, leb, if◌then◌else◌}

pub data LifecycleState : Type 0 where
  new running closing closed : LifecycleState

pub record Listener : Type 0 where
  pub lifecycle_state : LifecycleState
  pub manual_close : Bool
  -- Whether the context of closing is cancelled.
  pub cancelled : Bool
  -- Whether there is a current connection.
  pub connected : Bool
  pub is_live : Bool
  pub status_known : Bool
  -- The guard's `offlineConfirmations`.
  pub confirmations : ℕ
  pub failures : ℕ

abbrev pub fresh : Listener
fresh = record {
  lifecycle_state = new;
  manual_close = false;
  cancelled = false;
  connected = false;
  is_live = false;
  status_known = false;
  confirmations = 0;
  failures = 0;
}

-- `Record` of the guard: whether it is confirmed that the room is offline, and the new count.
unfoldable pub record_check : Bool → ℕ → Bool × ℕ
record_check true n = (false, 0)
record_check false n = (leb 2 (suc n), suc n)

unfoldable pub set_live_status : Bool → Listener → Listener
set_live_status status l = record l {
  is_live = status;
  status_known = true;
  confirmations = if status then 0 else l.confirmations;
}

unfoldable pub is_known_offline : Listener → Bool
is_known_offline l = l.status_known && not l.is_live

-- `shouldCloseAfterStatusCheck`
unfoldable pub check_status : Bool → Listener → Bool × Listener
unfolding record_check
check_status live l =
    let (ends, count) = record_check live l.confirmations in
    (
      ends,
      record l {
        confirmations = count;
        is_live = if ends then false else if live then true else l.is_live;
        status_known = if ends then true else if live then true else l.status_known;
      },
    )

unfoldable pub record_failure : Listener → ℕ × Listener
record_failure l = (suc l.failures, record l { failures = suc l.failures })

unfoldable pub reset_tracking : Listener → Listener
reset_tracking l = record l { failures = 0 }
