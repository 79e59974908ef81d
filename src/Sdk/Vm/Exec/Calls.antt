-- ===== src/Sdk/Vm/Exec/Calls.antt =====
-- jsScript/webmssdk.js, lines 220 to 239 and 304 to 319: functions that the program makes, and
-- calls.
use douyin_live.Prelude.{ℕ, suc, List, [], ◌∷◌, Option, none, some, get_elem?, take, length}
use Prim.Native.Nat.{min}
use douyin_live.Sdk.Vm.Machine.{
  Value, undefined, null, num, closure, Closure, Host, done, thrown, State, Step, running, fault,
}
use douyin_live.Sdk.Vm.Control.{new_scope, new_closure, raise}
use douyin_live.Sdk.Vm.Exec.Operators.{pop_many, settle}
use douyin_live.Sdk.Vm.Exec.Jumps.{type_error}

module _ {N W : Type 0} (host : Host N W) where
  -- The place in the code that a value is.
  unfoldable pub place : Value N → Option ℕ
  place (num n) = host.index n
  place _ = none

  unfoldable pub make_closure : ℕ → List (Value N) → State N W → Step N W
  make_closure n [] s = fault
  make_closure n (v ∷ rest) s = elim (place v) [
    | none ↦ fault
    | some entry ↦
        let (f, store) =
          new_closure (record { entry = entry; params = n; within = s.scope }) s.store in
        running (record s { stack = closure f ∷ rest; store = store })
  ]

  -- A function with a name of its own is the one variable of a scope around it.
  unfoldable pub make_named : ℕ → List (Value N) → State N W → Step N W
  make_named n [] s = fault
  make_named n (v ∷ rest) s = elim (place v) [
    | none ↦ fault
    | some entry ↦
        let f = length s.store.closures in
        let (around, store) = new_scope (closure f ∷ []) (some s.scope) s.store in
        let (_, store') =
          new_closure (record { entry = entry; params = n; within = around }) store in
        running (record s { stack = closure f ∷ rest; store = store' })
  ]

  -- `null == this && (this = global)`
  unfoldable pub this_of : Value N → Value N
  this_of undefined = host.global
  this_of null = host.global
  this_of v = v

  -- A call of a closure: the caller's registers are saved, and the arguments are the variables of a
  -- new scope, behind the array of them.
  unfoldable pub enter_closure :
      Closure → Value N → List (Value N) → ℕ → List (Value N) → State N W → Step N W
  unfolding this_of
  enter_closure c this args n rest s =
      let (list, store) = host.new_array args s.store in
      let (scope, store') =
        new_scope (take (suc (min c.params n)) (list ∷ args)) (some c.within) store in
      running (record s {
        pc = c.entry;
        this = this_of this;
        scope = scope;
        tries = [];
        stack = rest;
        frames = record { pc = s.pc; this = s.this; scope = s.scope; tries = s.tries } ∷ s.frames;
        store = store';
      })

  unfoldable pub call_value :
      Value N → Value N → List (Value N) → ℕ → List (Value N) → State N W → Step N W
  unfolding enter_closure settle
  call_value (closure k) this args n rest s = elim (get_elem? s.store.closures k) [
    | none ↦ fault
    | some c ↦ enter_closure c this args n rest s
  ]
  call_value undefined this args n rest s = type_error host (record s { stack = rest })
  call_value null this args n rest s = type_error host (record s { stack = rest })
  call_value callee this args n rest s =
      settle (host.apply callee this args s.store) s rest (this ∷ rest)

  unfoldable pub call_with : ℕ → List (Value N) → List (Value N) → State N W → Step N W
  unfolding call_value
  call_with n args (callee ∷ this ∷ rest) s = call_value callee this args n rest s
  call_with n args _ s = fault

  unfoldable pub call : ℕ → State N W → Step N W
  unfolding call_with
  call n s = elim (pop_many n s.stack []) [
    | none ↦ fault
    | some (args, stack) ↦ call_with n args stack s
  ]

  unfoldable pub construct_with : List (Value N) → List (Value N) → State N W → Step N W
  unfolding settle
  construct_with args [] s = fault
  construct_with args (callee ∷ rest) s = elim (host.bind callee args s.store) [
    | thrown e store ↦ raise e (record s { stack = rest; store = store })
    | done f store ↦
        settle (host.construct f store) (record s { store = store }) rest (callee ∷ rest)
  ]

  unfoldable pub construct : ℕ → State N W → Step N W
  unfolding construct_with
  construct n s = elim (pop_many n s.stack []) [
    | none ↦ fault
    | some (args, stack) ↦ construct_with args stack s
  ]
