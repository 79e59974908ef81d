-- ===== src/Sdk/Vm/Compile.antt =====
-- Expressions for the interpreter of jsScript/webmssdk.js: what they mean, and code for them in the
-- form that the programs of the script have.
pub mod Steps
pub mod Fetch
pub mod Operands
pub mod Branches
pub mod Forms
pub mod Correct
mod Tests
use douyin_live.Prelude.{
  ℕ, ◌+◌, ◌/◌, ◌%◌, ◌^◌, ◌<◌, Bool, true, false, not, List, [], ◌∷◌, ◌++◌, Option, none, some,
  get_elem?, if◌then◌else◌, length,
}
use douyin_live.Sdk.Text.{Text}
use douyin_live.Sdk.Vm.Loader.{Program}
use douyin_live.Sdk.Vm.Decode.{
  Binary, add, sub, mul, div, rem, loose_eq, loose_ne, strict_eq, strict_ne, less, greater,
  greater_eq, shift_left, shift_right, shift_right_zero, bits_and, bits_or, bits_xor, member_of,
  instance_of,
}
use douyin_live.Sdk.Vm.Machine.{Value, undefined, null, bool, Store, Outcome, done, thrown, Host}
use douyin_live.Sdk.Vm.Control.{up, slot_of, set_slot}
use douyin_live.Sdk.Vm.Exec.Operators.{truthy, member, operate}

-- A name is an index into the strings of the program, a variable a level and a slot.
pub data Expr : Type 0 where
  lit_bool : Bool → Expr
  lit_null lit_undefined this_value : Expr
  lit_text : ℕ → Expr
  variable : ℕ → ℕ → Expr
  set_variable : ℕ → ℕ → Expr → Expr
  operation : Binary → Expr → Expr → Expr
  negation inversion kind_of : Expr → Expr
  conjunction disjunction : Expr → Expr → Expr
  choice : Expr → Expr → Expr → Expr
  named_member : Expr → ℕ → Expr
  element : Expr → Expr → Expr

unfoldable pub binary_byte : Binary → ℕ
binary_byte add = 24
binary_byte sub = 25
binary_byte mul = 26
binary_byte div = 27
binary_byte rem = 28
binary_byte loose_eq = 35
binary_byte loose_ne = 36
binary_byte strict_eq = 37
binary_byte strict_ne = 38
binary_byte less = 39
binary_byte greater = 41
binary_byte greater_eq = 42
binary_byte shift_left = 43
binary_byte shift_right = 44
binary_byte shift_right_zero = 45
binary_byte bits_and = 46
binary_byte bits_or = 47
binary_byte bits_xor = 48
binary_byte member_of = 54
binary_byte instance_of = 55

-- An instruction with an operand of 16 bits.
unfoldable pub with_short : ℕ → ℕ → List ℕ
with_short op n = op ∷ n / 2 ^ 8 ∷ n % 2 ^ 8 ∷ []

unfoldable pub compile : Expr → List ℕ
compile (lit_bool true) = 0 ∷ []
compile (lit_bool false) = 1 ∷ []
compile lit_null = 2 ∷ []
compile lit_undefined = 8 ∷ []
compile this_value = 11 ∷ []
compile (lit_text name) = with_short 7 name
compile (variable depth i) = 17 ∷ depth ∷ i ∷ []
compile (set_variable depth i a) = compile a ++ 74 ∷ 20 ∷ depth ∷ i ∷ []
compile (operation op a b) = compile a ++ (compile b ++ binary_byte op ∷ [])
compile (negation a) = compile a ++ 29 ∷ []
compile (inversion a) = compile a ++ 50 ∷ []
compile (kind_of a) = compile a ++ 58 ∷ []
compile (conjunction a b) = compile a ++ (with_short 51 (length (compile b)) ++ compile b)
compile (disjunction a b) = compile a ++ (with_short 52 (length (compile b)) ++ compile b)
compile (choice c a b) =
    compile c
    ++ (with_short 71 (length (compile a) + 3)
        ++ (compile a ++ (with_short 69 (length (compile b)) ++ compile b)))
compile (named_member a name) = compile a ++ with_short 18 name
compile (element a k) = compile a ++ (compile k ++ 19 ∷ [])

-- Names are words of 16 bits, and jumps forward reach less than 2 ^ 15 bytes.
abbrev pub Fits : Expr → Type 0
Fits (lit_text name) = name < 2 ^ 16
Fits (set_variable depth i a) = Fits a
Fits (operation op a b) = Fits a × Fits b
Fits (negation a) = Fits a
Fits (inversion a) = Fits a
Fits (kind_of a) = Fits a
Fits (conjunction a b) = Fits a × Fits b × (length (compile b) < 2 ^ 15)
Fits (disjunction a b) = Fits a × Fits b × (length (compile b) < 2 ^ 15)
Fits (choice c a b) =
    Fits c × Fits a × Fits b × (length (compile a) + 3 < 2 ^ 15) × (length (compile b) < 2 ^ 15)
Fits (named_member a name) = Fits a × (name < 2 ^ 16)
Fits (element a k) = Fits a × Fits k
Fits _ = Unit

module _ {N W : Type 0} where
  -- What comes next, unless there is an exception or no meaning.
  unfoldable pub and_then :
      Option (Outcome N W) → (Value N → Store N W → Option (Outcome N W)) → Option (Outcome N W)
  and_then none f = none
  and_then (some (done v store)) f = f v store
  and_then (some (thrown e store)) f = some (thrown e store)

module _ {N W : Type 0} (host : Host N W) (program : Program) (this : Value N) (scope : ℕ) where
  -- The meaning of an expression: operands from the left to the right, `&&`, `||` and `?:` without
  -- the operand that is not needed. `none` where a name or a scope is missing.
  unfoldable pub eval : Expr → Store N W → Option (Outcome N W)
  unfolding and_then
  eval (lit_bool b) store = some (done (bool b) store)
  eval lit_null store = some (done null store)
  eval lit_undefined store = some (done undefined store)
  eval this_value store = some (done this store)
  eval (lit_text name) store = elim (get_elem? program.strings name) [
    | none ↦ none
    | some t ↦ some (done (Value.text t) store)
  ]
  eval (variable depth i) store = elim (up depth scope store.scopes) [
    | none ↦ none
    | some s ↦ some (done (slot_of store s i) store)
  ]
  eval (set_variable depth i a) store = and_then (eval a store) λ v store'.
      elim (up depth scope store'.scopes) [
        | none ↦ none
        | some s ↦ some (done v (set_slot store' s i v))
      ]
  eval (operation op a b) store =
      and_then (eval a store)
        λ v store'. and_then (eval b store') λ w store''. some (operate host op v w store'')
  eval (negation a) store = and_then (eval a store) λ v store'. some (host.negate v store')
  eval (inversion a) store =
      and_then (eval a store) λ v store'. some (done (bool (not (truthy host v))) store')
  eval (kind_of a) store =
      and_then (eval a store) λ v store'. some (done (Value.text (host.type_of v)) store')
  eval (conjunction a b) store =
      and_then (eval a store)
        λ v store'. if truthy host v then eval b store' else some (done v store')
  eval (disjunction a b) store =
      and_then (eval a store)
        λ v store'. if truthy host v then some (done v store') else eval b store'
  eval (choice c a b) store =
      and_then (eval c store) λ v store'. if truthy host v then eval a store' else eval b store'
  eval (named_member a name) store = and_then (eval a store) λ v store'.
      elim (get_elem? program.strings name) [
        | none ↦ none
        | some t ↦ some (member host v (Value.text t) store')
      ]
  eval (element a k) store =
      and_then (eval a store)
        λ v store'. and_then (eval k store') λ w store''. some (member host v w store'')
