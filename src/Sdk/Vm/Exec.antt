-- ===== src/Sdk/Vm/Exec.antt =====
-- jsScript/webmssdk.js, lines 90 to 373: an instruction's effect, a step of the interpreter and its
-- loop. The loop has no end of its own, so `run` has fuel.
pub mod Operators
pub mod Jumps
pub mod Calls
pub mod Returns
mod Tests
use douyin_live.Prelude.{ℕ, zero, suc, List, [], ◌∷◌, none, some}
use douyin_live.Sdk.Vm.Loader.{Program}
use douyin_live.Sdk.Vm.Decode.{
  Instr, decode, push_bool, push_null, push_undefined, push_this, push_int, push_parsed, push_text,
  make_array, make_object, define, get_named, put_named, get, put, increment, remove, load_slot,
  store_slot, push_slot, binary, negate, not_value, type_of, make_closure, make_named, end_try,
  begin_try, throw_value, finish, return_value, call, construct, and_jump, or_jump, jump,
  jump_unless, jump_case, pop_value, duplicate, assign,
}
use douyin_live.Sdk.Vm.Machine.{
  Value, undefined, null, bool, num, Closure, Store, Host, normal, State, Step, running, returned,
  uncaught, fault,
}
use douyin_live.Sdk.Vm.Control.{new_scope}
use douyin_live.Sdk.Vm.Exec.Operators
use douyin_live.Sdk.Vm.Exec.Jumps
use douyin_live.Sdk.Vm.Exec.Calls

module _ {N W : Type 0} (host : Host N W) (program : Program) where
  -- The instruction, with `pc` already behind it.
  unfoldable pub exec : Instr → State N W → Step N W
  exec (push_bool b) s = Operators.push (bool b) s
  exec push_null s = Operators.push null s
  exec push_undefined s = Operators.push undefined s
  exec push_this s = Operators.push s.this s
  exec (push_int z) s = Operators.push (num (host.of_int z)) s
  exec (push_parsed name) s =
      Operators.named program name (λ t. Operators.push (num (host.of_text t)) s)
  exec (push_text name) s = Operators.named program name (λ t. Operators.push (Value.text t) s)
  exec (make_array n) s = Operators.make_array host n s
  exec make_object s = Operators.make_object host s
  exec (define name) s = Operators.named program name (λ t. Operators.define host t s.stack s)
  exec (get_named name) s = Operators.named program name (λ t. Operators.get_named host t s.stack s)
  exec (put_named name) s = Operators.named program name (λ t. Operators.put_named host t s.stack s)
  exec get s = Operators.get host s.stack s
  exec put s = Operators.put host s.stack s
  exec assign s = Operators.assign host s.stack s
  exec increment s = Operators.increment host s.stack s
  exec remove s = Operators.remove host s.stack s
  exec (load_slot depth i) s = Operators.load_slot depth i s
  exec (store_slot depth i) s = Operators.store_slot depth i s.stack s
  exec (push_slot depth i) s = Operators.push_slot host depth i s
  exec (binary op) s = Operators.binary host op s.stack s
  exec negate s = Operators.negate host s.stack s
  exec not_value s = Operators.not_value host s.stack s
  exec type_of s = Operators.type_of host s.stack s
  exec (make_closure n) s = Calls.make_closure host n s.stack s
  exec (make_named n) s = Calls.make_named host n s.stack s
  exec (end_try offset) s = Jumps.end_try host offset s.tries s
  exec (begin_try offset) s = Jumps.begin_try offset s.tries s
  exec throw_value s = Jumps.throw_value s.stack s
  exec finish s = Jumps.finish host s.tries s
  exec return_value s = Jumps.return_value s.stack s
  exec (call n) s = Calls.call host n s
  exec (construct n) s = Calls.construct host n s
  exec (and_jump offset) s = Jumps.and_jump host offset s.stack s
  exec (or_jump offset) s = Jumps.or_jump host offset s.stack s
  exec (jump offset) s = Jumps.jump_by offset s
  exec (jump_unless offset) s = Jumps.jump_unless host offset s.stack s
  exec (jump_case offset) s = Jumps.jump_case host offset s.stack s
  exec pop_value s = Operators.pop_value s.stack s
  exec duplicate s = Operators.duplicate s.stack s

  -- A round of the loop.
  unfoldable pub step : State N W → Step N W
  step s = elim (decode program.code s.pc) [
    | none ↦ fault
    | some (i, pc) ↦ exec i (record s { pc = pc })
  ]

  -- The loop, for so many rounds.
  unfoldable pub run : ℕ → State N W → Step N W
  run zero s = running s
  run (suc fuel) s = elim (step s) [
    | running next ↦ run fuel next
    | returned v store ↦ returned v store
    | uncaught e store ↦ uncaught e store
    | fault ↦ fault
  ]

  -- The state before the first round, at the program's first instruction, in the scope `globals`.
  unfoldable pub start : ℕ → Value N → Store N W → State N W
  start globals this store =
      let (list, store') = host.new_array [] store in
      let (s, store'') = new_scope (list ∷ []) (some globals) store' in
      record {
        pc = program.entry;
        this = this;
        scope = s;
        tries = [];
        stack = [];
        completion = normal;
        frames = [];
        store = store'';
      }
