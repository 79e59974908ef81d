-- ===== src/Server/Room.antt =====
-- internal/server/room.go, room_session.go and room_monitor.go, with AddClient and the results of a
-- start in room_client.go: the state of a room that decides who may close it and who may connect it
-- to the upstream. Each operation holds the room's lock, so it is one step; the tasks that run
-- between them give the steps in any order. The instances of the listener are numbers, and clients
-- are counted. A generation does not wrap around. Messages, titles and the waits of a close are left
-- out.
pub mod Workers
pub mod Closing
pub mod Stranded
use douyin_live.Prelude.{
  ℕ, zero, suc, ◌+◌, ◌-◌, Bool, true, false, ◌&&◌, ◌||◌, not, List, [], ◌∷◌, Option, none, some,
  ◌==◌, leb, if◌then◌else◌,
}

-- A monitor, with its identity.
pub record Monitor : Type 0 where
  pub loop : ℕ
  pub generation : ℕ

pub record Room : Type 0 where
  -- Whether the room has no cookie.
  pub anonymous : Bool
  pub clients : ℕ
  pub pending : ℕ
  -- The listener that is connected or connects, and the one that probes.
  pub douyin_live : Option ℕ
  pub probe_live : Option ℕ
  pub probe_failures : ℕ
  pub monitor : Option Monitor
  pub starting : Bool
  pub status_unknown : Bool
  pub generation : ℕ
  pub closed : Bool
  pub upstream_ready : Bool
  pub active_tasks : ℕ

abbrev pub new_room : Bool → Room
new_room without_cookie = record {
  anonymous = without_cookie;
  clients = 0;
  pending = 0;
  douyin_live = none;
  probe_live = none;
  probe_failures = 0;
  monitor = none;
  starting = false;
  status_unknown = false;
  generation = 0;
  closed = false;
  upstream_ready = false;
  active_tasks = 0;
}

abbrev pub is_none {ℓ} : {A : Type ℓ} → Option A → Bool
is_none none = true
is_none (some a) = false

-- `p == d` for the number of an instance.
abbrev pub holds : Option ℕ → ℕ → Bool
holds none d = false
holds (some e) d = e == d

-- The monitor is of this generation.
abbrev pub is_of : Option Monitor → ℕ → Bool
is_of none g = false
is_of (some m) g = m.generation == g

-- The monitor is the one with this identity.
abbrev pub runs : Option Monitor → ℕ → Bool
runs none l = false
runs (some m) l = m.loop == l

-- A task or a timer of this generation may go on.
unfoldable pub is_current : ℕ → Room → Bool
is_current g r = not r.closed && r.generation == g

unfoldable pub reserve_client : Room → Bool × Room
reserve_client r = if r.closed then (false, r) else (true, record r { pending = suc r.pending })

unfoldable pub is_idle : Room → Bool
is_idle r =
    not r.closed
    && r.clients == 0
    && r.pending == 0
    && is_none r.douyin_live
    && is_none r.probe_live
    && is_none r.monitor
    && not r.starting
    && r.active_tasks == 0

unfoldable pub remove_if_idle : Room → Room
unfolding is_idle
remove_if_idle r = if is_idle r then record r { closed = true } else r

-- `releaseClientReservation`, up to the look whether the room is idle.
unfoldable pub release_reservation : Room → Room
release_reservation r = record r { pending = r.pending - 1 }

unfoldable pub detach_if_idle : Room → Bool × Room
detach_if_idle r = if r.closed || not (r.clients == 0 && r.pending == 0) then (false, r) else (
  true,
  record r {
    douyin_live = none;
    probe_live = none;
    probe_failures = 0;
    monitor = none;
    starting = false;
    upstream_ready = false;
    generation = suc r.generation;
  },
)

-- The first step of `Close`, and the removal of the clients that follows.
unfoldable pub close_room : Room → Room
close_room r =
    if r.closed
    then r
    else record r { closed = true; douyin_live = none; probe_live = none; probe_failures = 0 }

unfoldable pub clear_clients : Room → Room
clear_clients r = record r { clients = 0 }

-- `startTask` (`none`) and `startTaskForGeneration`, whether the task is started.
unfoldable pub start_task : Option ℕ → Room → Bool × Room
unfolding is_current
start_task g r =
    if elim g [ none ↦ not r.closed | some n ↦ is_current n r ]
    then (true, record r { active_tasks = suc r.active_tasks })
    else (false, r)

-- A task ends, up to the look whether the room is idle.
unfoldable pub end_task : Room → Room
end_task r = record r { active_tasks = r.active_tasks - 1 }

-- `AddClient`, with whether a start of a session is to be begun.
unfoldable pub add_client : Room → Bool × Room
add_client r =
    let r' = record r { pending = r.pending - 1 } in
    if r.closed
    then (false, r')
    else if is_none r.douyin_live && is_none r.monitor && not r.starting
    then (true, record r' { clients = suc r.clients; starting = true })
    else (false, record r' { clients = suc r.clients })

-- `removeClient`
unfoldable pub remove_client : Room → Room
remove_client r = record r { clients = r.clients - 1 }

-- The last part of `acquireProbeLive`, for a new instance `d`.
unfoldable pub store_probe : ℕ → ℕ → Room → Room
unfolding is_current
store_probe d g r =
    if is_current g r && is_none r.probe_live
    then record r { probe_live = some d; probe_failures = 0 }
    else r

-- `discardProbeLive`
unfoldable pub discard_probe : ℕ → Room → Room
discard_probe d r =
    if holds r.probe_live d then record r { probe_live = none; probe_failures = 0 } else r

unfoldable pub promote_probe : ℕ → ℕ → Room → Bool × Room
unfolding is_current
promote_probe d g r =
    if is_current g r && holds r.probe_live d
    then (
      true,
      record r {
        probe_live = none;
        probe_failures = 0;
        douyin_live = some d;
        upstream_ready = false;
        status_unknown = false;
        starting = false;
        monitor = if is_of r.monitor g then none else r.monitor;
      },
    )
    else (false, r)

unfoldable pub dispose_pending : ℕ → Room → Room
dispose_pending d r = if holds r.douyin_live d then record r { douyin_live = none } else r

unfoldable pub mark_ready : ℕ → ℕ → Room → Bool × Room
unfolding is_current
mark_ready d g r =
    if is_current g r && holds r.douyin_live d
    then (true, record r { upstream_ready = true; status_unknown = false })
    else (false, r)

-- `installMonitorLoopLocked` of a new monitor `l`.
unfoldable pub install_monitor : ℕ → ℕ → Room → Room
unfolding is_current
install_monitor l g r =
    if is_current g r && is_none r.douyin_live && is_none r.monitor
    then record r { monitor = some (record { loop = l; generation = g }) }
    else r

unfoldable pub install_if_clients : ℕ → ℕ → Room → Room
unfolding install_monitor
install_if_clients l g r = if r.clients == 0 then r else install_monitor l g r

-- `transitionLiveSessionToMonitor`
unfoldable pub live_to_monitor : ℕ → ℕ → ℕ → Room → Room
unfolding is_current install_if_clients
live_to_monitor d l g r =
    if is_current g r && holds r.douyin_live d
    then install_if_clients l g (record r {
      douyin_live = none;
      upstream_ready = false;
      starting = false;
      status_unknown = false;
    })
    else r

-- `transitionToMonitorForGeneration`
unfoldable pub to_monitor : Bool → ℕ → ℕ → Room → Room
unfolding is_current install_if_clients
to_monitor unknown l g r =
    if is_current g r && is_none r.douyin_live
    then install_if_clients l g (record r { starting = false; status_unknown = unknown })
    else r

-- `finish` of a monitor.
unfoldable pub finish_monitor : ℕ → Room → Room
finish_monitor l r = if runs r.monitor l then record r { monitor = none } else r

-- The monitor `l` is the one of the current generation.
unfoldable pub is_monitored : ℕ → Room → Bool
is_monitored l r = not r.closed && is_of r.monitor r.generation && runs r.monitor l

-- `beginMonitorProbe`, whether a start is to be begun.
unfoldable pub begin_probe : ℕ → Room → Bool × Room
unfolding is_monitored
begin_probe l r =
    if is_monitored l r && is_none r.douyin_live && not (r.clients == 0) && not r.starting
    then (true, record r { starting = true })
    else (false, r)

-- `completeMonitorProbe`, and `commitMonitorStatus` with a status.
unfoldable pub complete_probe : ℕ → Option Bool → Room → Room
unfolding is_monitored
complete_probe l status r =
    if is_monitored l r
    then record r {
      starting = false;
      status_unknown = elim status [ none ↦ r.status_unknown | some unknown ↦ unknown ];
    }
    else r

-- `recordProbeFailure`: without a cookie the third failure in a row drops the instance.
unfoldable pub record_probe_failure : ℕ → Room → Room
record_probe_failure d r =
    if holds r.probe_live d
    then if r.anonymous && leb 3 (suc r.probe_failures)
      then record r { probe_live = none; probe_failures = 0 }
      else record r { probe_failures = suc r.probe_failures }
    else r

-- `resetProbeFailures`
unfoldable pub reset_probe_failures : ℕ → Room → Room
reset_probe_failures d r = if holds r.probe_live d then record r { probe_failures = 0 } else r

-- The last look of `startLiveSession` before it runs the instance: whether it gives up.
unfoldable pub gives_up : ℕ → ℕ → Room → Bool
unfolding is_current
gives_up d g r = not (is_current g r && holds r.douyin_live d) || r.clients == 0

unfoldable pub clear_starting : ℕ → Room → Bool × Room
unfolding is_current
clear_starting g r = if is_current g r then (true, record r { starting = false }) else (false, r)

-- `closeClientsForFailedGeneration`
unfoldable pub fail_generation : ℕ → Room → Bool × Room
unfolding is_current
fail_generation g r =
    if is_current g r
    then (
      true,
      record r {
        probe_live = none;
        probe_failures = 0;
        starting = false;
        monitor = if is_of r.monitor g then none else r.monitor;
        generation = suc g;
        clients = 0;
      },
    )
    else (false, r)

pub data Step : Type 0 where
  reserves releases adds removes idles detaches task_ends closes clears : Step
  task_starts : Option ℕ → Step
  disposes discards finishes clears_starting fails probe_begins probe_fails probe_resets : ℕ → Step
  stores promotes readies : ℕ → ℕ → Step
  installs : ℕ → ℕ → Step
  lives_to_monitor : ℕ → ℕ → ℕ → Step
  goes_to_monitor : Bool → ℕ → ℕ → Step
  probe_completes : ℕ → Option Bool → Step

unfoldable pub step : Step → Room → Room
unfolding reserve_client release_reservation add_client remove_client remove_if_idle detach_if_idle
    end_task close_room clear_clients start_task dispose_pending discard_probe finish_monitor
    clear_starting fail_generation store_probe promote_probe mark_ready live_to_monitor to_monitor
    install_monitor begin_probe complete_probe record_probe_failure reset_probe_failures
step reserves r = (reserve_client r).1
step releases r = release_reservation r
step adds r = (add_client r).1
step removes r = remove_client r
step idles r = remove_if_idle r
step detaches r = (detach_if_idle r).1
step task_ends r = end_task r
step closes r = close_room r
step clears r = clear_clients r
step (task_starts g) r = (start_task g r).1
step (disposes d) r = dispose_pending d r
step (discards d) r = discard_probe d r
step (finishes l) r = finish_monitor l r
step (clears_starting g) r = (clear_starting g r).1
step (fails g) r = (fail_generation g r).1
step (probe_begins l) r = (begin_probe l r).1
step (probe_fails d) r = record_probe_failure d r
step (probe_resets d) r = reset_probe_failures d r
step (stores d g) r = store_probe d g r
step (promotes d g) r = (promote_probe d g r).1
step (readies d g) r = (mark_ready d g r).1
step (installs l g) r = install_monitor l g r
step (lives_to_monitor d l g) r = live_to_monitor d l g r
step (goes_to_monitor unknown l g) r = to_monitor unknown l g r
step (probe_completes l status) r = complete_probe l status r

unfoldable pub run : List Step → Room → Room
unfolding step
run [] r = r
run (s ∷ steps) r = run steps (step s r)
