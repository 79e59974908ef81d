-- ===== src/Sdk/Vm/Machine.antt =====
-- jsScript/webmssdk.js, lines 90 to 101: the registers of the interpreter, its values and its host.
-- The host stands for JavaScript itself: numbers are floating point, and an operator on an object,
-- a member of it or a call of it runs code that is not in this file. So the type of numbers, the
-- memory of the objects and these operations are parameters, and each may change the whole store.
use douyin_live.Prelude.{ℕ, Bool, List, Option}
use douyin_live.Prelude.Int.{ℤ}
use douyin_live.Sdk.Text.{Text}
use douyin_live.Sdk.Vm.Decode.{Binary}

-- A closure and a scope are references into the store, and an object belongs to the host.
pub data Value (N : Type 0) : Type 0 where
  undefined null : Value N
  bool : Bool → Value N
  num : N → Value N
  text : Text → Value N
  closure scope object : ℕ → Value N

-- An array of variables; `.p` is the scope around it.
pub record Scope (N : Type 0) : Type 0 where
  pub slots : List (Value N)
  pub parent : Option ℕ

-- `_v` of a function that the program makes: its first instruction, its number of parameters and
-- the scope that it was made in.
pub record Closure : Type 0 where
  pub entry : ℕ
  pub params : ℕ
  pub within : ℕ

pub record Store (N W : Type 0) : Type 0 where
  pub scopes : List (Scope N)
  pub closures : List Closure
  pub world : W

-- A value or a thrown value, with the store behind it.
pub data Outcome (N W : Type 0) : Type 0 where
  done thrown : Value N → Store N W → Outcome N W

pub record Host (N W : Type 0) : Type 0 where
  pub of_int : ℤ → N
  -- `+text`
  pub of_text : Text → N
  -- The index that a number is, if it is one.
  pub index : N → Option ℕ
  pub is_zero_or_nan : N → Bool
  pub same : Value N → Value N → Bool
  pub binary : Binary → Value N → Value N → Store N W → Outcome N W
  pub negate : Value N → Store N W → Outcome N W
  pub type_of : Value N → Text
  pub get : Value N → Value N → Store N W → Outcome N W
  -- `object[key] = value`, with the key before the value
  pub put : Value N → Value N → Value N → Store N W → Outcome N W
  -- `object[key]++`, and its parts for a variable: the old value as a number, and one more.
  pub increment : Value N → Value N → Store N W → Outcome N W
  pub to_numeric : Value N → Store N W → Outcome N W
  pub add_one : Value N → Value N
  pub remove : Value N → Value N → Store N W → Outcome N W
  pub new_array : List (Value N) → Store N W → Value N × Store N W
  pub new_object : Store N W → Value N × Store N W
  -- `callee.apply(this, arguments)` of what is no closure of this program
  pub apply : Value N → Value N → List (Value N) → Store N W → Outcome N W
  -- `Function.bind.apply(callee, [undefined, …])`, and `new` of the result
  pub bind : Value N → List (Value N) → Store N W → Outcome N W
  pub construct : Value N → Store N W → Outcome N W
  pub type_error : Store N W → Value N × Store N W
  -- `this` of a function that is called with none
  pub global : Value N

-- `[kind, end, first, second]`. `single` has one handler, `both` a handler of exceptions, the
-- second, before the one that always runs, the first; `last` has only that one left, and `spent`
-- none.
pub data Kind : Type 0 where
  spent single last both : Kind

pub record Try : Type 0 where
  pub kind : Kind
  pub end : ℕ
  pub first : ℕ
  pub second : Option ℕ

-- How the handler that always runs is left: by going on, by a return or by an exception.
pub data Completion (N : Type 0) : Type 0 where
  normal : Completion N
  returning throwing : Value N → Completion N

-- What a call saves.
pub record Frame (N : Type 0) : Type 0 where
  pub pc : ℕ
  pub this : Value N
  pub scope : ℕ
  pub tries : List Try

-- The stack of values has its top first; the other stacks too.
pub record State (N W : Type 0) : Type 0 where
  pub pc : ℕ
  pub this : Value N
  pub scope : ℕ
  pub tries : List Try
  pub stack : List (Value N)
  pub completion : Completion N
  pub frames : List (Frame N)
  pub store : Store N W

-- `fault` is a program that the model gives no meaning: one that runs out of its code, takes values
-- from the empty stack, names a missing string or a scope around the outermost one, or makes a
-- function at what is no place in the code.
pub data Step (N W : Type 0) : Type 0 where
  running : State N W → Step N W
  returned uncaught : Value N → Store N W → Step N W
  fault : Step N W
