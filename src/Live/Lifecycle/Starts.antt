-- ===== src/Live/Lifecycle/Starts.antt =====
-- A listener starts at most once.
use douyin_live.Prelude.{ℕ, ◌+◌, ◌≤◌, ◌≡◌, refl, List, [], ◌∷◌, ◌++◌, arith, if◌then◌else◌}
use douyin_live.Live.{LifecycleState, new, running, closing, closed, Listener}
use douyin_live.Live.Lifecycle.{
  begins, phase_of_close, Step, start_begins, close_begins, close_signals, connection_drops,
  attaches, tracking_resets, heartbeat_starts, finishes, status_set, step, run, start_from,
}

-- How many starts can still begin.
abbrev pub starts_left : LifecycleState → ℕ
starts_left new = 1
starts_left running = 0
starts_left closing = 0
starts_left closed = 0

start_from_left :
    (p : LifecycleState) (l : Listener)
    → l.lifecycle_state ≡ p
    → (if begins (start_from p l).0 then 1 else 0) + starts_left (start_from p l).1.lifecycle_state
      ≤ starts_left p
unfolding start_from
start_from_left new l e = ground arith
start_from_left running l e = rw e (omega arith)
start_from_left closing l e = rw e (omega arith)
start_from_left closed l e = rw e (omega arith)

starts_left-le : (p : LifecycleState) → starts_left p ≤ 1
starts_left-le new = omega arith
starts_left-le running = omega arith
starts_left-le closing = omega arith
starts_left-le closed = omega arith

close_left : (p : LifecycleState) → starts_left (phase_of_close p) ≡ 0
close_left new = refl
close_left running = refl
close_left closing = refl
close_left closed = refl

step_left :
    (s : Step) (l : Listener)
    → (if (step s l).0 then 1 else 0) + starts_left (step s l).1.lifecycle_state
      ≤ starts_left l.lifecycle_state
unfolding step
step_left start_begins l = start_from_left l.lifecycle_state l refl
step_left close_begins l = omega (arith, close_left l.lifecycle_state)
step_left close_signals l = omega arith
step_left connection_drops l = omega arith
step_left attaches l = omega arith
step_left tracking_resets l = omega arith
step_left heartbeat_starts l = omega arith
step_left finishes l = omega arith
step_left (status_set live) l = omega arith

run_left :
    (steps : List Step) (l : Listener)
    → (run steps l).0 + starts_left (run steps l).1.lifecycle_state ≤ starts_left l.lifecycle_state
unfolding run
run_left [] l = omega arith
run_left (s ∷ steps) l = omega (arith, run_left steps (step s l).1, step_left s l)

run-append :
    (before after : List Step) (l : Listener)
    → (run (before ++ after) l).0 ≡ (run before l).0 + (run after (run before l).1).0
unfolding run
run-append [] after l = omega arith
run-append (s ∷ before) after l = omega (arith, run-append before after (step s l).1)

-- In any sequence of steps at most one start begins, and none begins after a close has begun:
-- until then at most one, and what follows adds none.
pub run_once :
    (before after : List Step) (l : Listener)
    → ((run before l).0 ≤ 1) × ((run (before ++ close_begins ∷ after) l).0 ≡ (run before l).0)
unfolding run step
run_once before after l =
    let l' : Listener = (run before l).1 in
    let none_left : starts_left (phase_of_close l'.lifecycle_state) ≡ 0 =
      close_left l'.lifecycle_state in
    (
      omega (arith, run_left before l, starts_left-le l.lifecycle_state),
      omega (
        arith,
        run-append before (close_begins ∷ after) l,
        run_left after (step close_begins l').1,
      ),
    )
