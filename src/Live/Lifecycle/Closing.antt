-- ===== src/Live/Lifecycle/Closing.antt =====
-- A close and a dial that succeeds, in every order of their steps.
use douyin_live.Prelude.{◌≡◌, refl, Bool, true, false, List, [], ◌∷◌, ◌++◌, map, if◌then◌else◌}
use douyin_live.Live.{LifecycleState, Listener}
use douyin_live.Live.Lifecycle.{
  Step, connection_drops, attaches, status_set, run, close_steps, connect_steps, phase_of_close,
}

-- All lists that keep the order of both.
abbrev pub interleavings {ℓ} : {A : Type ℓ} → List A → List A → List (List A)
interleavings [] bs = bs ∷ []
interleavings (a ∷ more) [] = (a ∷ more) ∷ []
interleavings (a ∷ more) (b ∷ bs) =
    map (λ l. a ∷ l) (interleavings more (b ∷ bs)) ++ map (λ l. b ∷ l) (interleavings (a ∷ more) bs)

-- The connection is dropped before one is stored.
abbrev pub drops_first : List Step → Bool
drops_first [] = false
drops_first (connection_drops ∷ steps) = true
drops_first (attaches ∷ steps) = false
drops_first (_ ∷ steps) = drops_first steps

-- The listener is set not live before it is set live.
abbrev pub ends_first : List Step → Bool
ends_first [] = false
ends_first (status_set live ∷ steps) = if live then false else true
ends_first (_ ∷ steps) = ends_first steps

pub record Outcome : Type 0 where
  pub connected : Bool
  pub is_live : Bool
  pub manual_close : Bool
  pub cancelled : Bool
  pub lifecycle_state : LifecycleState

abbrev pub outcome : Listener → Outcome
outcome l = record {
  connected = l.connected;
  is_live = l.is_live;
  manual_close = l.manual_close;
  cancelled = l.cancelled;
  lifecycle_state = l.lifecycle_state;
}

abbrev pub expected : Listener → List Step → Outcome
expected l steps = record {
  connected = drops_first steps;
  is_live = ends_first steps;
  manual_close = true;
  cancelled = true;
  lifecycle_state = phase_of_close l.lifecycle_state;
}

-- In every order of the steps of a close and of those that follow a successful dial, the listener
-- ends closed by hand and cancelled, in the phase that the close sets. It ends with a connection
-- exactly where the close drops the connection before it is stored, and live exactly where the close
-- sets the status before the steps after the dial do: the steps after the dial do not look whether
-- the listener is closed.
pub run_close_orders :
    (resets : Bool) (l : Listener)
    → map (λ steps. outcome (run steps l).1) (interleavings close_steps (connect_steps resets))
      ≡ map (expected l) (interleavings close_steps (connect_steps resets))
unfolding run
run_close_orders true l = refl
run_close_orders false l = refl
