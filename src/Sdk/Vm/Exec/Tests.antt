-- ===== src/Sdk/Vm/Exec/Tests.antt =====
-- Runs of programs, and theorems at concrete states.
use douyin_live.Prelude.{ℕ, ◌≡◌, refl, List, [], ◌∷◌, Option, none, some}
use douyin_live.Prelude.Int.{signed}
use douyin_live.Sdk.Text.{codes}
use douyin_live.Sdk.Vm.Loader.{Program}
use douyin_live.Sdk.Vm.Machine.{
  Value, undefined, num, text, closure, object, Kind, spent, last, both, Try, normal, throwing,
  State, Step, running, returned, uncaught,
}
use douyin_live.Sdk.Vm.Decode.{decode}
use douyin_live.Sdk.Vm.Control.{
  up, slot_of, set_slot, new_scope, new_closure, pick, pick_frame, enter, raise, leave, pick_last,
}
use douyin_live.Sdk.Vm.Exec.{exec, step, run, start}
use douyin_live.Sdk.Vm.Exec.Operators
use douyin_live.Sdk.Vm.Exec.Jumps
use douyin_live.Sdk.Vm.Exec.Calls
use douyin_live.Sdk.Vm.Exec.Returns.{return_value-call, finish-call_loses, finish-return_skips}
use douyin_live.Sdk.Vm.Sample.{calculator, one_scope}

abbrev program_of : List ℕ → Program
program_of code = record { code = code; strings = []; entry = 0 }

abbrev returned_value : Step ℕ (Unit {0}) → Option (Value ℕ)
returned_value (returned v store) = some v
returned_value _ = none

abbrev uncaught_value : Step ℕ (Unit {0}) → Option (Value ℕ)
uncaught_value (uncaught v store) = some v
uncaught_value _ = none

-- The run of a code from its first byte, in so many rounds.
run_code : List ℕ → ℕ → Step ℕ (Unit {0})
unfolding run step exec start decode up slot_of set_slot new_scope new_closure pick pick_frame enter
    raise leave pick_last Operators.push Operators.binary Operators.operate Operators.settle
    Operators.load_slot Operators.store_slot Operators.pop_many Operators.pop_value Operators.truthy
    Operators.duplicate Jumps.target Jumps.jump_by Jumps.begin_try Jumps.end_try Jumps.finish
    Jumps.return_value Jumps.throw_value Jumps.jump_unless Calls.call Calls.make_closure Calls.place
run_code code fuel =
    run calculator (program_of code) fuel (start calculator (program_of code) 0 undefined one_scope)

-- `return 2 + 3`
run_sum : returned_value (run_code (3 ∷ 2 ∷ 3 ∷ 3 ∷ 24 ∷ 66 ∷ []) 4) ≡ some (num 5)
unfolding run_code signed
run_sum = refl

-- `return (function (x) { return x * x })(4)`
run_call :
    returned_value (
      run_code
        (8 ∷ 3 ∷ 10 ∷ 59 ∷ 1 ∷ 3 ∷ 4 ∷ 67 ∷ 1 ∷ 66 ∷ 17 ∷ 0 ∷ 1 ∷ 17 ∷ 0 ∷ 1 ∷ 26 ∷ 66 ∷ [])
        10)
    ≡ some (num 16)
unfolding run_code signed
run_call = refl

-- `try { 1 * undefined } catch (e) { return 7 }`
run_catch :
    returned_value
      (run_code (62 ∷ 0 ∷ 4 ∷ 73 ∷ 3 ∷ 7 ∷ 66 ∷ 61 ∷ 0 ∷ 5 ∷ 3 ∷ 1 ∷ 8 ∷ 26 ∷ 65 ∷ []) 9)
    ≡ some (num 7)
unfolding run_code signed
run_catch = refl

-- `1 * undefined`
run_uncaught :
    uncaught_value (run_code (3 ∷ 1 ∷ 8 ∷ 26 ∷ 66 ∷ []) 3) ≡ some (text (codes "TypeError"))
unfolding run_code signed
run_uncaught = refl

abbrev plain_try : Kind → Try
plain_try kind = record { kind = kind; end = 40; first = 20; second = none }

-- A state in a handler that the exception `undefined` entered, with a closure to call.
abbrev in_handler : State ℕ (Unit {0})
in_handler = record {
  pc = 5;
  this = undefined;
  scope = 0;
  tries = plain_try spent ∷ [];
  stack = closure 0 ∷ undefined ∷ [];
  completion = throwing undefined;
  frames = [];
  store = record one_scope { closures = record { entry = 9; params = 0; within = 0 } ∷ [] };
}

-- The closure of it, entered, with the result on the stack.
abbrev in_closure : State ℕ (Unit {0})
in_closure = record {
  pc = 9;
  this = undefined;
  scope = 1;
  tries = [];
  stack = [];
  completion = throwing undefined;
  frames = record { pc = 5; this = undefined; scope = 0; tries = plain_try spent ∷ [] } ∷ [];
  store = record {
    scopes =
        record { slots = []; parent = none }
        ∷ record { slots = object 0 ∷ []; parent = some 0 }
        ∷ [];
    closures = record { entry = 9; params = 0; within = 0 } ∷ [];
    world = tt;
  };
}

entered : Calls.call_value calculator (closure 0) undefined [] 0 [] in_handler ≡ running in_closure
unfolding Calls.call_value Calls.enter_closure Calls.this_of new_scope
entered = refl

return_value-call_example :
    Jumps.return_value (num 7 ∷ []) in_closure
    ≡ running (record in_closure {
      pc = 5;
      this = undefined;
      scope = 0;
      tries = plain_try spent ∷ [];
      stack = num 7 ∷ [];
      completion = normal;
      frames = [];
    })
return_value-call_example =
    return_value-call calculator in_handler in_closure in_closure 0 0 undefined (num 7) [] [] []
      entered refl tt

finish-call_loses_example :
    (Jumps.finish calculator (plain_try spent ∷ []) in_handler
      ≡ raise undefined (record in_handler { tries = [] }))
    × (w : State ℕ (Unit {0})) × (Jumps.return_value (num 7 ∷ []) in_closure ≡ running w)
    × (Jumps.finish calculator w.tries w ≡ running (record w { pc = 40; tries = [] }))
finish-call_loses_example =
    finish-call_loses calculator in_handler in_closure in_closure (plain_try spent) [] undefined 0 0
      undefined (num 7) [] [] [] refl refl refl entered refl tt

-- A function with two statements around its return.
abbrev in_two_tries : State ℕ (Unit {0})
in_two_tries = record in_closure {
  tries = record (plain_try both) { first = 30 } ∷ plain_try last ∷ [];
  completion = normal;
}

finish-return_skips_example :
    (w : State ℕ (Unit {0})) × (Jumps.return_value (num 7 ∷ []) in_two_tries ≡ running w)
    × (w.pc ≡ 30)
    × (Jumps.finish calculator w.tries w
        ≡ running (record w {
          pc = 5;
          this = undefined;
          scope = 0;
          tries = plain_try spent ∷ [];
          stack = num 7 ∷ [];
          completion = normal;
          frames = [];
        }))
finish-return_skips_example =
    finish-return_skips calculator in_two_tries (num 7) [] (record (plain_try both) { first = 30 })
      (plain_try last) []
      (record { pc = 5; this = undefined; scope = 0; tries = plain_try spent ∷ [] }) [] tt tt refl
      refl
