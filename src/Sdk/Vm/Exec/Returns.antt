-- ===== src/Sdk/Vm/Exec/Returns.antt =====
-- Calls of closures and the ways back.
use douyin_live.Prelude.{
  ℕ, ◌≡◌, refl, sym, ◌∙◌, ap, List, [], ◌∷◌, none, some, inl, inr, Option-cases, get_elem?, All,
  arith,
}
use douyin_live.Sdk.Vm.Machine.{
  Value, closure, Host, Kind, spent, single, last, both, Try, normal, returning, throwing, Frame,
  State, Step, running, fault,
}
use douyin_live.Sdk.Vm.Control.{raise, leave, pick_last}
use douyin_live.Sdk.Vm.Exec.Jumps
use douyin_live.Sdk.Vm.Exec.Calls

-- A handler that always runs is still to run, after the guarded part or after a first handler.
abbrev pub HasLast : Kind → Type 0
HasLast last = Unit
HasLast both = Unit
HasLast _ = ⊥

-- No handler that always runs is still to run.
abbrev pub IsQuiet : Kind → Type 0
IsQuiet spent = Unit
IsQuiet single = Unit
IsQuiet _ = ⊥

pick_last_lem :
    (t : Try) (tries : List Try) → HasLast t.kind → pick_last (t ∷ tries) ≡ some (t, tries)
unfolding pick_last
pick_last_lem t tries h = ground arith

quiet_lem : (tries : List Try) → All (λ t. IsQuiet t.kind) tries → pick_last tries ≡ none
unfolding pick_last
quiet_lem [] h = refl
quiet_lem (t ∷ tries) h = ground (arith, quiet_lem tries h.1)

module _ {N W : Type 0} (host : Host N W) where
  -- What a call of a closure saves.
  abbrev saved : State N W → Frame N
  saved s = record { pc = s.pc; this = s.this; scope = s.scope; tries = s.tries }

  -- A return in a function that was called from `s` goes back there.
  return_lem :
      (s u : State N W) (v : Value N) (below : List (Value N))
      → u.frames ≡ saved s ∷ s.frames
      → All (λ t. IsQuiet t.kind) u.tries
      → Jumps.return_value (v ∷ below) u
        ≡ running (record u {
          pc = s.pc;
          this = s.this;
          scope = s.scope;
          tries = s.tries;
          stack = v ∷ below;
          completion = normal;
          frames = s.frames;
        })
  unfolding Jumps.return_value leave
  return_lem s u v below frames quiet =
      rw (quiet_lem u.tries quiet, Jumps.return_value, frames, leave) refl

  abbrev state_of : State N W → Step N W → State N W
  state_of default (running s) = s
  state_of default _ = default

  called_lem :
      (s called : State N W) (k n : ℕ) (this : Value N) (args rest : List (Value N))
      → Calls.call_value host (closure k) this args n rest s ≡ running called
      → (called.frames ≡ saved s ∷ s.frames) × (called.completion ≡ s.completion)
  unfolding Calls.call_value Calls.enter_closure
  called_lem s called k n this args rest h = elim (Option-cases (get_elem? s.store.closures k)) [
    | inl missing ↦ let broken : fault ≡ running called = rw (missing, Calls.call_value) at h in cc
    | inr (c, there) ↦
        let entered : Calls.enter_closure host c this args n rest s ≡ running called =
          rw (there, Calls.call_value) at h in
        (
          sym (ap (λ (x : Step N W). (state_of s x).frames) entered),
          sym (ap (λ (x : Step N W). (state_of s x).completion) entered),
        )
  ]

  -- A call of a closure, and a return in any later state of it in which its own calls have come
  -- back and no handler that always runs is left: the caller goes on behind the call with its
  -- registers and frames as they were, and the value on the stack that the callee leaves.
  pub return_value-call :
      (s called u : State N W) (k n : ℕ) (this v : Value N) (args rest below : List (Value N))
      → Calls.call_value host (closure k) this args n rest s ≡ running called
      → u.frames ≡ called.frames
      → All (λ t. IsQuiet t.kind) u.tries
      → Jumps.return_value (v ∷ below) u
        ≡ running (record u {
          pc = s.pc;
          this = s.this;
          scope = s.scope;
          tries = s.tries;
          stack = v ∷ below;
          completion = normal;
          frames = s.frames;
        })
  return_value-call s called u k n this v args rest below h same quiet =
      return_lem s u v below (same ∙ (called_lem s called k n this args rest h).0) quiet

  -- A handler that always runs, entered by an exception, ends by raising it again. If the handler
  -- calls a closure of the program that returns, its end goes on behind the whole statement
  -- instead, and the exception is lost.
  pub finish-call_loses :
      (s called u : State N W) (t : Try) (tries : List Try) (e : Value N) (k n : ℕ)
      (this v : Value N) (args rest below : List (Value N))
      → s.tries ≡ t ∷ tries
      → t.kind ≡ spent
      → s.completion ≡ throwing e
      → Calls.call_value host (closure k) this args n rest s ≡ running called
      → u.frames ≡ called.frames
      → All (λ t. IsQuiet t.kind) u.tries
      → (Jumps.finish host (t ∷ tries) s ≡ raise e (record s { tries = tries }))
        × (w : State N W) × (Jumps.return_value (v ∷ below) u ≡ running w)
        × (Jumps.finish host w.tries w ≡ running (record w { pc = t.end; tries = tries }))
  unfolding Jumps.finish
  finish-call_loses s called u t tries e k n this v args rest below st kind pending h same quiet = (
    simp (Jumps.finish, kind, pending),
    record u {
      pc = s.pc;
      this = s.this;
      scope = s.scope;
      tries = s.tries;
      stack = v ∷ below;
      completion = normal;
      frames = s.frames;
    },
    return_value-call s called u k n this v args rest below h same quiet,
    rw st (rw (Jumps.finish, kind) refl),
  )

  -- A return out of two statements of which both have a handler that always runs, each with or
  -- without a handler of exceptions before it, enters the inner one's handler that always runs; its
  -- end leaves the function, and the outer handler is not entered.
  pub finish-return_skips :
      (s : State N W) (v : Value N) (rest : List (Value N)) (inner outer : Try) (tries : List Try)
      (f : Frame N) (frames : List (Frame N))
      → HasLast inner.kind
      → HasLast outer.kind
      → s.tries ≡ inner ∷ outer ∷ tries
      → s.frames ≡ f ∷ frames
      → (w : State N W) × (Jumps.return_value (v ∷ rest) s ≡ running w)
        × (w.pc ≡ inner.first)
        × (Jumps.finish host w.tries w
            ≡ running (record w {
              pc = f.pc;
              this = f.this;
              scope = f.scope;
              tries = f.tries;
              stack = v ∷ rest;
              completion = normal;
              frames = frames;
            }))
  unfolding Jumps.return_value Jumps.finish leave
  finish-return_skips s v rest inner outer tries f frames ki ko st sf = (
    record s {
      pc = inner.first;
      tries = record inner { kind = spent } ∷ outer ∷ tries;
      stack = rest;
      completion = returning v;
    },
    rw (st, Jumps.return_value, pick_last_lem inner (outer ∷ tries) ki) refl,
    refl,
    rw (sf, leave) refl,
  )
