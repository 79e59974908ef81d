-- ===== src/Live/Reading.antt =====
-- reconnect.go, lines 114 to 160 and 167 to 247, websocket_connection.go, lines 473 to 515, and
-- room_info.go, lines 1094 to 1179: the loop that reads messages, and what a read error leads to.
-- What comes from outside is an input: the errors, the answers of the check of the status, whether
-- the wait is interrupted and whether a dial succeeds. Between these inputs the loop is the only
-- goroutine that is modelled; other goroutines only ever set the two counts back to 0. The texts of
-- the log, the read deadlines and the choice of the user agent are left out.
pub mod Tracking
use douyin_live.Prelude.{
  ℕ, ◌+◌, Bool, true, false, ◌||◌, ◌&&◌, List, [], ◌∷◌, Option, none, some, leb, if◌then◌else◌,
}
use douyin_live.Live.{Listener, set_live_status, check_status, record_failure}
use douyin_live.Live.Lifecycle.{drop_connection, connect_steps, run}
use douyin_live.Live.Reconnect.{Plan, ReadError, Decision, reconnect_plan, reconnect_decision}

-- A check of the status by HTTP: the statuses that it sets on the way, and its answer, or `none`
-- for an error.
pub record Check : Type 0 where
  pub writes : List Bool
  pub answer : Option Bool

pub record Failure : Type 0 where
  pub error : ReadError
  pub check : Check
  -- Whether the wait is interrupted by a close.
  pub interrupted : Bool
  -- Whether one of the attempts of the library's `retry.Do` makes a connection.
  pub dials : Bool

-- Why a read error ends the loop, or that the connection is made again.
pub data Outcome : Type 0 where
  closed_by_hand not_live ended_twice not_retried wait_interrupted dial_failed : Outcome
  reconnected : Outcome

pub record Handled : Type 0 where
  pub outcome : Outcome
  -- The count of failures and the plan that follows from it, where it comes to that.
  pub planned : Option (ℕ × Plan)
  pub after : Listener

set_statuses : List Bool → Listener → Listener
set_statuses [] l = l
set_statuses (status ∷ writes) l = set_statuses writes (set_live_status status l)

-- `fetchLiveStatusFromAPI`
unfoldable pub fetch_status : Check → Listener → Listener
unfolding set_statuses
fetch_status check l = set_statuses check.writes (record l { status_known = false })

-- The answer of a check is counted, if it has one: whether the loop ends, and the state.
unfoldable pub count_answer : Option Bool → Listener → Bool × Listener
unfolding check_status
count_answer none l = (false, l)
count_answer (some live) l = check_status live l

-- `reconnect`, after its look at whether the listener is closed by hand: an attempt that makes a
-- connection is the last one.
unfoldable pub reconnect : Bool → Listener → Listener
unfolding drop_connection run
reconnect dials l =
    if dials then (run (connect_steps true) (drop_connection l)).1 else drop_connection l

abbrev pub ended : Outcome → Listener → Handled
ended why l = record { outcome = why; planned = none; after = l }

-- From the failure's count on.
plan_and_wait : Bool → Failure → Decision → Listener → Handled
unfolding record_failure reconnect
plan_and_wait has_cookie f d l =
    let (count, counted) = record_failure l in
    let plan : Plan = reconnect_plan has_cookie d.reason count d.base_delay d.allow_ua in
    if f.interrupted
    then record { outcome = wait_interrupted; planned = some (count, plan); after = counted }
    else if counted.manual_close
    then record { outcome = closed_by_hand; planned = some (count, plan); after = counted }
    else record {
      outcome = if f.dials then reconnected else dial_failed;
      planned = some (count, plan);
      after = reconnect f.dials counted;
    }

decide_and_plan : Bool → Failure → Bool × Listener → Handled
unfolding plan_and_wait reconnect_decision
decide_and_plan has_cookie f (true, l) = ended ended_twice l
decide_and_plan has_cookie f (false, l) =
    let d : Decision = reconnect_decision l.manual_close f.error in
    if d.should_retry then plan_and_wait has_cookie f d l else ended not_retried l

unfoldable pub handle_read_error : Bool → Failure → Listener → Handled
unfolding decide_and_plan fetch_status count_answer
handle_read_error has_cookie f l =
    if l.manual_close
    then ended closed_by_hand l
    else if l.is_live
    then decide_and_plan has_cookie f (count_answer f.check.answer (fetch_status f.check l))
    else ended not_live l

-- What a read gives: an error, a message that ends the live, or any other message.
pub data Read : Type 0 where
  failed : Failure → Read
  live_ends other_message : Read

abbrev pub keeps_reading : Outcome → Bool
keeps_reading reconnected = true
keeps_reading _ = false

-- What a read leads to, and whether the loop goes on to its test.
unfoldable pub read_one : Bool → Read → Listener → Option Handled × Listener × Bool
unfolding handle_read_error set_live_status
read_one has_cookie other_message l = (none, l, true)
read_one has_cookie live_ends l = (none, set_live_status false l, true)
read_one has_cookie (failed f) l =
    let h : Handled = handle_read_error has_cookie f l in (some h, h.after, keeps_reading h.outcome)

abbrev pub add_handled : Option Handled → List Handled → List Handled
add_handled none later = later
add_handled (some h) later = h ∷ later

-- `processMessages` on the reads to come: what was done about each error.
unfoldable pub process_messages : Bool → List Read → Listener → List Handled
unfolding read_one
process_messages has_cookie [] l = []
process_messages has_cookie (r ∷ reads) l =
    let (handled, l', goes_on) = read_one has_cookie r l in
    let rest = process_messages has_cookie reads l' in
    if l.is_live then add_handled handled (if goes_on then rest else []) else []
