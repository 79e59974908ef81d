-- ===== src/Sdk/Vm/Compile/Correct.antt =====
-- Code of an expression, and what the interpreter computes with it.
use douyin_live.Prelude.{
  ℕ, suc, fun_ext, ◌+◌, ◌^◌, ◌<◌, ◌≡◌, refl, sym, ◌∙◌, ap, Bool, true, false, List, ◌∷◌, ◌++◌, some,
  length, if◌then◌else◌, not,
}
use douyin_live.Sdk.Vm.Loader.{Program}
use douyin_live.Sdk.Vm.Decode
use douyin_live.Sdk.Vm.Decode.{decode, decode_at, Instr}
use douyin_live.Sdk.Vm.Machine.{
  Value, undefined, null, bool, Store, done, thrown, Host, State, running,
}
use douyin_live.Sdk.Vm.Control.{raise}
use douyin_live.Sdk.Vm.Exec.{step, exec, run}
use douyin_live.Sdk.Vm.Exec.Operators.{push, truthy}
use douyin_live.Sdk.Vm.Exec.Jumps
use douyin_live.Sdk.Vm.Compile.{
  Expr, with_short, compile, Fits, and_then, eval, lit_bool, lit_null, lit_undefined, this_value,
  lit_text, variable, set_variable, operation, negation, inversion, kind_of, conjunction,
  disjunction, choice, named_member, element,
}
use douyin_live.Sdk.Vm.Compile.Steps.{run-Steps}
use douyin_live.Sdk.Vm.Compile.Fetch.{Holds, short_lem}
use douyin_live.Sdk.Vm.Compile.Operands.{CorrectAt}
use douyin_live.Sdk.Vm.Compile.Forms.{
  literal, text_correct, variable_correct, set_correct, negation_correct, inversion_correct,
  kind_correct, operation_correct, element_correct, named_correct,
}
use douyin_live.Sdk.Vm.Compile.Branches.{short_circuit, choice_correct}

module _ {N W : Type 0} (host : Host N W) (program : Program) where
  -- The tests the other way round.
  if-not {ℓ} : {A : Type ℓ} (b : Bool) (x y : A) → (if b then x else y) ≡ (if not b then y else x)
  if-not true x y = refl
  if-not false x y = refl

  conjunction_correct :
      (a b : Expr)
      → CorrectAt host program a
      → CorrectAt host program b
      → length (compile b) < 2 ^ 15
      → CorrectAt host program (conjunction a b)
  unfolding compile eval exec decode_at with_short Jumps.and_jump
  conjunction_correct a b iha ihb small s o h e =
      let other : (λ (v : Value N) (store : Store N W).
        if truthy host v then eval host program s.this s.scope b store else some (done v store))
          ≡ (λ v store.
              if not (truthy host v)
              then some (done v store)
              else eval host program s.this s.scope b store) =
        fun_ext (λ v. fun_ext (λ store. if-not (truthy host v) _ _)) in
      short_circuit host program a b iha ihb 51 (Decode.and_jump (length (compile b)))
        (λ v. not (truthy host v)) small
        (λ pc h. short_lem program.code (suc pc) Decode.and_jump (length (compile b)) h.1)
        (λ s pc v store. if-not (truthy host v) _ _) s o h
        (sym (ap (and_then (eval host program s.this s.scope a s.store)) other) ∙ e)

  disjunction_correct :
      (a b : Expr)
      → CorrectAt host program a
      → CorrectAt host program b
      → length (compile b) < 2 ^ 15
      → CorrectAt host program (disjunction a b)
  unfolding compile eval exec decode_at with_short Jumps.or_jump
  disjunction_correct a b iha ihb small =
      short_circuit host program a b iha ihb 52 (Decode.or_jump (length (compile b))) (truthy host)
        small (λ pc h. short_lem program.code (suc pc) Decode.or_jump (length (compile b)) h.1)
        (λ s pc v store. refl)

  choice_lem :
      (c a b : Expr)
      → CorrectAt host program c
      → CorrectAt host program a
      → CorrectAt host program b
      → length (compile a) + 3 < 2 ^ 15
      → length (compile b) < 2 ^ 15
      → CorrectAt host program (choice c a b)
  unfolding compile eval
  choice_lem c a b ihc iha ihb small_a small_b =
      choice_correct host program c a b ihc iha ihb small_a small_b

  pub compile_lem : (a : Expr) → Fits a → CorrectAt host program a
  unfolding compile with_short
  compile_lem (lit_bool true) fits s o h e =
      unfold eval exec push decode_at in
      literal host program 0 (Decode.push_bool true) (λ _. bool true) s o h refl refl e
  compile_lem (lit_bool false) fits s o h e =
      unfold eval exec push decode_at in
      literal host program 1 (Decode.push_bool false) (λ _. bool false) s o h refl refl e
  compile_lem lit_null fits s o h e =
      unfold eval exec push decode_at in
      literal host program 2 Decode.push_null (λ _. null) s o h refl refl e
  compile_lem lit_undefined fits s o h e =
      unfold eval exec push decode_at in
      literal host program 8 Decode.push_undefined (λ _. undefined) s o h refl refl e
  compile_lem this_value fits s o h e =
      unfold eval exec push decode_at in
      literal host program 11 Decode.push_this (λ s. s.this) s o h refl refl e
  compile_lem (lit_text name) fits s o h e = text_correct host program name s o h e
  compile_lem (variable depth i) fits s o h e = variable_correct host program depth i s o h e
  compile_lem (set_variable depth i a) fits s o h e =
      set_correct host program depth i a (compile_lem a fits) s o h e
  compile_lem (operation op a b) fits s o h e =
      operation_correct host program op a b (compile_lem a fits.0) (compile_lem b fits.1) s o h e
  compile_lem (negation a) fits s o h e =
      negation_correct host program a (compile_lem a fits) s o h e
  compile_lem (inversion a) fits s o h e =
      inversion_correct host program a (compile_lem a fits) s o h e
  compile_lem (kind_of a) fits s o h e = kind_correct host program a (compile_lem a fits) s o h e
  compile_lem (conjunction a b) fits s o h e =
      conjunction_correct a b (compile_lem a fits.0) (compile_lem b fits.1) fits.2 s o h e
  compile_lem (disjunction a b) fits s o h e =
      disjunction_correct a b (compile_lem a fits.0) (compile_lem b fits.1) fits.2 s o h e
  compile_lem (choice c a b) fits s o h e =
      choice_lem c a b (compile_lem c fits.0) (compile_lem a fits.1) (compile_lem b fits.2) fits.3
        fits.4 s o h e
  compile_lem (named_member a name) fits s o h e =
      named_correct host program a name (compile_lem a fits.0) s o h e
  compile_lem (element a k) fits s o h e =
      element_correct host program a k (compile_lem a fits.0) (compile_lem k fits.1) s o h e

  -- Where the code holds the code of an expression at the place of the interpreter, its names and
  -- jumps fit their operands and it has a value, so many rounds run to the place behind it, with
  -- the value pushed and the store of the meaning; nothing else is changed.
  pub run-compile :
      (a : Expr) (s : State N W) (v : Value N) (store : Store N W)
      → Fits a
      → Holds program.code s.pc (compile a)
      → eval host program s.this s.scope a s.store ≡ some (done v store)
      → (fuel : ℕ) × (run host program fuel s
          ≡ running
              (record s { pc = s.pc + length (compile a); stack = v ∷ s.stack; store = store }))
  run-compile a s v store fits h e =
      run-Steps host program (compile_lem a fits s (done v store) h e)

  -- Where the code holds the code of an expression at the place of the interpreter, its names and
  -- jumps fit their operands and its meaning is an exception, so many rounds run to a state whose
  -- step raises it, with the store of the meaning, above the stack as it was. What the operands
  -- pushed is left there.
  pub run-compile_thrown :
      (a : Expr) (s : State N W) (x : Value N) (store : Store N W)
      → Fits a
      → Holds program.code s.pc (compile a)
      → eval host program s.this s.scope a s.store ≡ some (thrown x store)
      → (fuel : ℕ) × (t : State N W) × (pc : ℕ) × (left : List (Value N)) × (run host program fuel s
          ≡ running t)
        × (step host program t
            ≡ raise x (record s { pc = pc; stack = left ++ s.stack; store = store }))
  run-compile_thrown a s x store fits h e =
      let (t, pc, left, steps, raised) = compile_lem a fits s (thrown x store) h e in
      let (fuel, ran) = run-Steps host program steps in (fuel, t, pc, left, ran, raised)
