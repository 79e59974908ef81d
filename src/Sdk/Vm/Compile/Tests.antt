-- ===== src/Sdk/Vm/Compile/Tests.antt =====
-- Code of expressions, and the theorems at concrete ones.
use douyin_live.Prelude.{ℕ, ◌+◌, ◌≡◌, refl, arith, true, List, [], ◌∷◌, ◌++◌, none, length}
use douyin_live.Sdk.Text.{codes}
use douyin_live.Sdk.Vm.Loader.{Program}
use douyin_live.Sdk.Vm.Decode.{add}
use douyin_live.Sdk.Vm.Machine.{Value, undefined, text, Store, normal, State, running}
use douyin_live.Sdk.Vm.Control.{up, set_slot, raise}
use douyin_live.Sdk.Vm.Exec.{step, run}
use douyin_live.Sdk.Vm.Exec.Operators.{operate, truthy}
use douyin_live.Sdk.Vm.Compile.{
  Expr, with_short, compile, eval, lit_bool, lit_null, lit_text, set_variable, operation,
  conjunction, choice,
}
use douyin_live.Sdk.Vm.Compile.Correct.{run-compile, run-compile_thrown}
use douyin_live.Sdk.Vm.Sample.{calculator, one_scope}

-- `v = true && null ? null : "h"`
abbrev assignment : Expr
assignment = set_variable 0 0 (choice (conjunction (lit_bool true) lit_null) lit_null (lit_text 0))

assignment_code :
    compile assignment
    ≡ 0 ∷ 51 ∷ 0 ∷ 1 ∷ 2 ∷ 71 ∷ 0 ∷ 4 ∷ 2 ∷ 69 ∷ 0 ∷ 3 ∷ 7 ∷ 0 ∷ 0 ∷ 74 ∷ 20 ∷ 0 ∷ 0 ∷ []
unfolding compile with_short
assignment_code = refl

abbrev program_of : Expr → Program
program_of a = record { code = compile a; strings = codes "h" ∷ []; entry = 0 }

abbrev before : State ℕ (Unit {0})
before = record {
  pc = 0;
  this = undefined;
  scope = 0;
  tries = [];
  stack = [];
  completion = normal;
  frames = [];
  store = one_scope;
}

abbrev assigned : Store ℕ (Unit {0})
assigned = record one_scope {
  scopes = record { slots = text (codes "h") ∷ []; parent = none } ∷ [];
}

run-compile_example :
    (fuel : ℕ) × (run calculator (program_of assignment) fuel before
      ≡ running (record before {
        pc = before.pc + length (compile assignment);
        stack = text (codes "h") ∷ before.stack;
        store = assigned;
      }))
unfolding compile with_short eval up set_slot truthy
run-compile_example =
    run-compile calculator (program_of assignment) assignment before (text (codes "h")) assigned
      ((tt, tt, omega arith), tt, omega arith, omega arith, omega arith)
      (
        refl,
        (
          refl,
          (
            refl,
            (
              refl,
              (
                refl,
                (
                  refl,
                  (
                    refl,
                    (
                      refl,
                      (
                        refl,
                        (
                          refl,
                          (
                            refl,
                            (refl, (refl, (refl, (refl, (refl, (refl, (refl, (refl, tt)))))))),
                          ),
                        ),
                      ),
                    ),
                  ),
                ),
              ),
            ),
          ),
        ),
      )
      refl

-- `true + "h"`, after the first operand of which a value is on the stack
abbrev bad_sum : Expr
bad_sum = operation add (lit_bool true) (lit_text 0)

run-compile_thrown_example :
    (fuel : ℕ) × (t : State ℕ (Unit {0})) × (pc : ℕ) × (left : List (Value ℕ)) × (run calculator
        (program_of bad_sum)
        fuel
        before
      ≡ running t)
    × (step calculator (program_of bad_sum) t
        ≡ raise
            (text (codes "TypeError"))
            (record before { pc = pc; stack = left ++ before.stack; store = one_scope }))
unfolding compile with_short eval operate
run-compile_thrown_example =
    run-compile_thrown calculator (program_of bad_sum) bad_sum before (text (codes "TypeError"))
      one_scope (tt, omega arith) (refl, (refl, (refl, (refl, (refl, tt))))) refl
