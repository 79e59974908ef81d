-- ===== src/Sdk/Vm/Compile/Steps.antt =====
-- Runs of the interpreter as sequences of steps.
use douyin_live.Prelude.{ℕ, suc, ◌+◌, ◌≡◌, refl, List, ◌∷◌, ◌++◌}
use douyin_live.Sdk.Vm.Loader.{Program}
use douyin_live.Sdk.Vm.Machine.{Value, Outcome, done, thrown, Host, State, running}
use douyin_live.Sdk.Vm.Control.{raise}
use douyin_live.Sdk.Vm.Exec.{step, run}

module _ {N W : Type 0} (host : Host N W) (program : Program) where
  pub data Steps : State N W → State N W → Type 0 where
    here : (s : State N W) → Steps s s
    next : (s t u : State N W) → step host program s ≡ running t → Steps t u → Steps s u

  pub trans : {s t u : State N W} → Steps s t → Steps t u → Steps s u
  trans (here s) r = r
  trans (next s t v e q) r = next s t _ e (trans q r)

  -- Such a sequence is a run with enough fuel.
  pub run-Steps : {s t : State N W} → Steps s t → (fuel : ℕ) × (run host program fuel s ≡ running t)
  unfolding run
  run-Steps (here s) = (0, refl)
  run-Steps (next s t u e q) = let (fuel, r) = run-Steps q in (suc fuel, rw (e, run) r)

  -- The code from `s.pc` on, of `size` bytes, has an outcome: its value is pushed, or a step raises
  -- its exception, with values on the stack that are left behind.
  abbrev pub Yields : State N W → ℕ → Outcome N W → Type 0
  Yields s size (done v store) =
      Steps s (record s { pc = s.pc + size; stack = v ∷ s.stack; store = store })
  Yields s size (thrown e store) =
      (t : State N W) × (pc : ℕ) × (left : List (Value N)) × Steps s t
      × (step host program t
          ≡ raise e (record s { pc = pc; stack = left ++ s.stack; store = store }))

  -- The size in other words.
  pub Yields-size :
      (s : State N W) (m n : ℕ) (o : Outcome N W) → m ≡ n → Yields s m o → Yields s n o
  Yields-size s m n (done v store) e y = rw e at y
  Yields-size s m n (thrown x store) e y = y
