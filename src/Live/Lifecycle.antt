-- ===== src/Live/Lifecycle.antt =====
-- lifecycle.go, http_context.go (lines 54 to 62), websocket_connection.go (lines 21 to 56 and 556
-- to 578) and reconnect.go (lines 206 to 216): how a listener starts, closes and gets a connection,
-- as the steps that other goroutines may come between.
pub mod Starts
pub mod Closing
use douyin_live.Prelude.{ℕ, zero, suc, ◌+◌, Bool, true, false, ◌||◌, List, [], ◌∷◌, if◌then◌else◌}
use douyin_live.Live.{
  LifecycleState, new, running, closing, closed, Listener, set_live_status, reset_tracking,
}

pub data StartResult : Type 0 where
  started already_started refused : StartResult

abbrev pub begins : StartResult → Bool
begins started = true
begins already_started = false
begins refused = false

start_from : LifecycleState → Listener → StartResult × Listener
start_from new l =
    if l.manual_close || l.cancelled
    then (refused, record l { lifecycle_state = closed })
    else (started, record l { lifecycle_state = running; manual_close = false })
start_from running l = (already_started, l)
start_from closing l = (already_started, l)
start_from closed l = (refused, l)

unfoldable pub begin_start : Listener → StartResult × Listener
unfolding start_from
begin_start l = start_from l.lifecycle_state l

abbrev pub phase_of_close : LifecycleState → LifecycleState
phase_of_close new = closed
phase_of_close running = closing
phase_of_close closing = closing
phase_of_close closed = closed

unfoldable pub begin_close : Listener → Listener
begin_close l = record l { manual_close = true; lifecycle_state = phase_of_close l.lifecycle_state }

unfoldable pub finish_lifecycle : Listener → Listener
finish_lifecycle l = record l { lifecycle_state = closed }

-- `ensureUsable`, whether it succeeds.
abbrev pub is_usable : LifecycleState → Bool
is_usable new = true
is_usable running = true
is_usable closing = false
is_usable closed = false

unfoldable pub signal_close : Listener → Listener
signal_close l = record l { cancelled = true }

-- What `closeCurrentConnection` and `cleanup` do to the connection.
unfoldable pub drop_connection : Listener → Listener
drop_connection l = record l { connected = false }

-- A connection that has been made is stored.
unfoldable pub attach : Listener → Listener
attach l = record l { connected = true }

-- The guard is reset where the heartbeat starts.
unfoldable pub start_heartbeat : Listener → Listener
start_heartbeat l = record l { confirmations = 0 }

-- The steps of `Start`, of `Close`, of `cleanup` and of a successful dial.
pub data Step : Type 0 where
  start_begins close_begins close_signals connection_drops attaches tracking_resets : Step
  heartbeat_starts finishes : Step
  status_set : Bool → Step

-- Whether a start begins with this step, and the state after it.
unfoldable pub step : Step → Listener → Bool × Listener
unfolding begin_start begin_close finish_lifecycle signal_close drop_connection attach
    start_heartbeat set_live_status reset_tracking
step start_begins l = let (result, l') = begin_start l in (begins result, l')
step close_begins l = (false, begin_close l)
step close_signals l = (false, signal_close l)
step connection_drops l = (false, drop_connection l)
step attaches l = (false, attach l)
step tracking_resets l = (false, reset_tracking l)
step heartbeat_starts l = (false, start_heartbeat l)
step finishes l = (false, finish_lifecycle l)
step (status_set live) l = (false, set_live_status live l)

-- How many starts begin in a sequence of steps of any goroutines, and the state after it.
unfoldable pub run : List Step → Listener → ℕ × Listener
unfolding step
run [] l = (0, l)
run (s ∷ steps) l =
    let (begun, l') = step s l in
    let (count, last) = run steps l' in ((if begun then 1 else 0) + count, last)

-- `Close` in a listener without a heartbeat.
abbrev pub close_steps : List Step
close_steps = close_begins ∷ status_set false ∷ close_signals ∷ connection_drops ∷ []

-- What the attempt of `reconnect` (`true`) and `startWebSocket` (`false`) do once the dial has
-- succeeded.
abbrev pub connect_steps : Bool → List Step
connect_steps resets =
    attaches ∷ status_set true ∷ heartbeat_starts ∷ (if resets then tracking_resets ∷ [] else [])
