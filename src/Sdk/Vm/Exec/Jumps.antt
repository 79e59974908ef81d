-- ===== src/Sdk/Vm/Exec/Jumps.antt =====
-- jsScript/webmssdk.js, lines 203 to 211, 240 to 303 and 320 to 331: jumps, exceptions and the ways
-- out of a function. An offset is a signed word of 16 bits, counted from behind the instruction.
use douyin_live.Prelude.{
  ℕ, ◌+◌, ◌-◌, ◌^◌, List, [], ◌∷◌, Option, none, some, ltb, leb, ◌==◌, if◌then◌else◌,
}
use douyin_live.Sdk.Vm.Machine.{
  Value, Host, Try, spent, single, last, both, normal, returning, throwing, State, Step, running,
  fault,
}
use douyin_live.Sdk.Vm.Control.{raise, leave, pick_last}
use douyin_live.Sdk.Vm.Exec.Operators.{truthy}

unfoldable pub target : ℕ → ℕ → Option ℕ
target pc offset =
    if ltb offset (2 ^ 15)
    then some (pc + offset)
    else if leb (2 ^ 16) (pc + offset)
    then some (pc + offset - 2 ^ 16)
    else none

module _ {N W : Type 0} where
  unfoldable pub jump_by : ℕ → State N W → Step N W
  jump_by offset s = elim (target s.pc offset) [
    | none ↦ fault
    | some pc ↦ running (record s { pc = pc })
  ]

  -- A first entry that has no end yet gets a second handler.
  unfoldable pub begin_try : ℕ → List Try → State N W → Step N W
  unfolding jump_by
  begin_try offset [] s =
      jump_by offset
        (record s { tries = record { kind = single; end = 0; first = s.pc; second = none } ∷ [] })
  begin_try offset (t ∷ tries) s = jump_by offset (
      if t.end == 0
      then record s {
        tries =
            record t { kind = both; second = elim t.second [ none ↦ some s.pc | some h ↦ some h ] }
            ∷ tries;
      }
      else record s {
        tries = record { kind = single; end = 0; first = s.pc; second = none } ∷ t ∷ tries;
      })

  unfoldable pub throw_value : List (Value N) → State N W → Step N W
  throw_value [] s = fault
  throw_value (e ∷ rest) s = raise e (record s { stack = rest })

  -- A return goes through the handler that always runs, if there is one.
  unfoldable pub return_value : List (Value N) → State N W → Step N W
  return_value [] s = fault
  return_value (v ∷ rest) s = elim (pick_last s.tries) [
    | none ↦ leave v (record s { stack = rest; tries = [] })
    | some (t, tries) ↦ running (record s {
      pc = t.first;
      tries = record t { kind = spent } ∷ tries;
      stack = rest;
      completion = returning v;
    })
  ]

module _ {N W : Type 0} (host : Host N W) where
  unfoldable pub type_error : State N W → Step N W
  type_error s = let (e, store) = host.type_error s.store in raise e (record s { store = store })

  unfoldable pub end_try : ℕ → List Try → State N W → Step N W
  unfolding type_error
  end_try offset [] s = type_error s
  end_try offset (t ∷ tries) s = elim (target s.pc offset) [
    | none ↦ fault
    | some pc ↦ running (record s { tries = record t { end = pc } ∷ tries })
  ]

  -- The end of a guarded part, or of a handler.
  unfoldable pub finish : List Try → State N W → Step N W
  unfolding type_error
  finish [] s = type_error s
  finish (t ∷ tries) s = elim t.kind [
    | single ↦ running (record s { pc = t.end; tries = tries })
    | spent ↦ elim s.completion [
      | normal ↦ running (record s { pc = t.end; tries = tries })
      | returning v ↦ leave v (record s { tries = tries })
      | throwing e ↦ raise e (record s { tries = tries })
    ]
    | last ↦ running (record s { pc = t.first; tries = record t { kind = spent } ∷ tries })
    | both ↦ running (record s { pc = t.first; tries = record t { kind = spent } ∷ tries })
  ]

  unfoldable pub and_jump : ℕ → List (Value N) → State N W → Step N W
  and_jump offset [] s = fault
  and_jump offset (v ∷ rest) s =
      if truthy host v then running (record s { stack = rest }) else jump_by offset s

  unfoldable pub or_jump : ℕ → List (Value N) → State N W → Step N W
  or_jump offset [] s = fault
  or_jump offset (v ∷ rest) s =
      if truthy host v then jump_by offset s else running (record s { stack = rest })

  unfoldable pub jump_unless : ℕ → List (Value N) → State N W → Step N W
  jump_unless offset [] s = fault
  jump_unless offset (v ∷ rest) s =
      if truthy host v
      then running (record s { stack = rest })
      else jump_by offset (record s { stack = rest })

  -- A case of a `switch`: the value stays if the case does not fit.
  unfoldable pub jump_case : ℕ → List (Value N) → State N W → Step N W
  jump_case offset (x ∷ v ∷ rest) s =
      if host.same v x
      then jump_by offset (record s { stack = rest })
      else running (record s { stack = v ∷ rest })
  jump_case offset _ s = fault
