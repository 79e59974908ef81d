-- ===== src/Live/Tests.antt =====
-- Runs of the listener, and its theorems at concrete inputs.
use douyin_live.Prelude.{
  ◌*◌, ◌-◌, ◌^◌, ◌≤◌, ◌≡◌, refl, true, false, List, [], ◌∷◌, ◌++◌, some, All, length, map, arith,
}
use douyin_live.Prelude.Int.{pos, negsuc, signed}
use douyin_live.Live.{running, Listener, fresh}
use douyin_live.Live.Lifecycle.{
  Step, start_begins, close_begins, finishes, run, connect_steps, close_steps, attaches, status_set,
  heartbeat_starts,
}
use douyin_live.Live.Lifecycle.Starts.{run_once}
use douyin_live.Live.Lifecycle.Closing.{interleavings, outcome, expected, run_close_orders}
use douyin_live.Live.Reconnect.{
  network_or_unknown, going_away, try_again_later, other_error, reconnect_plan,
  base_reconnect_delay, max_reconnect_delay, second,
}
use douyin_live.Live.Reconnect.Delays.{
  least_delay, larger, smaller, reconnect_plan_delay, reconnect_plan_overflow,
}
use douyin_live.Live.Reading.{Failure, Read, failed, other_message, live_ends, process_messages}
use douyin_live.Live.Reading.Tracking.{IsPlain, IsReset, process_messages-IsPlain}

-- Two calls of `Start` while a connection is made.
abbrev two_starts : List Step
two_starts = start_begins ∷ (connect_steps false ++ start_begins ∷ [])

two_starts-run : (run two_starts fresh).0 ≡ 1
unfolding run
two_starts-run = refl

run_once_example :
    ((run two_starts fresh).0 ≤ 1)
    × ((run (two_starts ++ close_begins ∷ finishes ∷ start_begins ∷ []) fresh).0
        ≡ (run two_starts fresh).0)
run_once_example = run_once two_starts (finishes ∷ start_begins ∷ []) fresh

abbrev running_listener : Listener
running_listener = record fresh { lifecycle_state = running; is_live = true; status_known = true }

run_close_orders_example :
    map
      (λ steps. outcome (run steps running_listener).1)
      (interleavings close_steps (connect_steps true))
    ≡ map (expected running_listener) (interleavings close_steps (connect_steps true))
run_close_orders_example = run_close_orders true running_listener

-- A close that comes whole between the store and the status leaves the listener live, without a
-- connection.
close_after_store-run :
    let after =
      outcome
        (run
          (attaches ∷ (close_steps ++ status_set true ∷ heartbeat_starts ∷ []))
          running_listener).1 in
    (after.connected ≡ false) × (after.is_live ≡ true)
unfolding run
close_after_store-run = (refl, refl)

reconnect_plan_delay_example :
    (reconnect_plan false going_away 3 base_reconnect_delay true).delay
    ≡ pos (
        larger
          (least_delay going_away)
          (smaller (base_reconnect_delay * 2 ^ (3 - 1)) max_reconnect_delay))
reconnect_plan_delay_example =
    reconnect_plan_delay false going_away 3 base_reconnect_delay true (omega arith) (omega arith)

-- The 34th failure in a row plans a negative delay.
overflow_run :
    (reconnect_plan false network_or_unknown 34 base_reconnect_delay true).delay
    ≡ negsuc (2 ^ 64 - 15 * 10 ^ 8 * 2 ^ 33 - 1)
unfolding reconnect_plan signed
overflow_run = refl

reconnect_plan_overflow_example :
    (reconnect_plan false try_again_later 70 (5 * second) true).delay
    ≡ pos (least_delay try_again_later)
reconnect_plan_overflow_example =
    reconnect_plan_overflow false try_again_later 70 (5 * second) true (omega arith)

-- Three read errors whose checks all say that the room is offline, each followed by a connection.
abbrev offline_failure : Failure
offline_failure = record {
  error = other_error;
  check = record { writes = false ∷ []; answer = some false };
  interrupted = false;
  dials = true;
}

abbrev three_failures : List Read
three_failures =
    failed offline_failure
    ∷ other_message
    ∷ failed offline_failure
    ∷ failed offline_failure
    ∷ live_ends
    ∷ other_message
    ∷ []

abbrev connected_listener : Listener
connected_listener = (run (connect_steps false) running_listener).1

connected-IsReset : IsReset connected_listener
unfolding run
connected-IsReset = record { no_confirmations = refl; no_failures = refl }

three_failures_run : length (process_messages false three_failures connected_listener) ≡ 3
unfolding process_messages run
three_failures_run = refl

process_messages-IsPlain_example :
    All IsPlain (process_messages false three_failures connected_listener)
process_messages-IsPlain_example =
    process_messages-IsPlain false three_failures connected_listener connected-IsReset
