-- ===== src/Sdk/Vm/Exec/Operators.antt =====
-- jsScript/webmssdk.js, lines 104 to 219: the instructions that push values, read and write members
-- and variables, and compute. Where an operation throws, the stack is left as the source leaves it:
-- the source pops operands first, and `stack[++top] = …` moves the top before the right side.
use douyin_live.Prelude.{
  ℕ, zero, suc, Bool, true, false, not, List, [], ◌∷◌, Option, none, some, get_elem?,
}
use douyin_live.Prelude.Int.{pos}
use douyin_live.Sdk.Text.{Text}
use douyin_live.Sdk.Vm.Loader.{Program}
use douyin_live.Sdk.Vm.Decode.{Binary, strict_eq, strict_ne}
use douyin_live.Sdk.Vm.Machine.{
  Value, undefined, null, bool, num, text, scope, Store, Outcome, done, thrown, Host, State, Step,
  running, fault,
}
use douyin_live.Sdk.Vm.Control.{up, slot_of, set_slot, raise}

-- So many values from the top of the stack, in the order in which they were pushed, before those
-- that are already taken; and what is left.
unfoldable pub pop_many {ℓ} : {A : Type ℓ} → ℕ → List A → List A → Option (List A × List A)
pop_many zero stack taken = some (taken, stack)
pop_many (suc n) [] taken = none
pop_many (suc n) (v ∷ stack) taken = pop_many n stack (v ∷ taken)

unfoldable pub named : {N W : Type 0} → Program → ℕ → (Text → Step N W) → Step N W
named program name f = elim (get_elem? program.strings name) [ none ↦ fault | some t ↦ f t ]

module _ {N W : Type 0} where
  unfoldable pub push : Value N → State N W → Step N W
  push v s = running (record s { stack = v ∷ s.stack })

  -- A result goes on the stack `below`; an exception finds the stack `left`.
  unfoldable pub settle : Outcome N W → State N W → List (Value N) → List (Value N) → Step N W
  settle (done v store) s below left = running (record s { stack = v ∷ below; store = store })
  settle (thrown e store) s below left = raise e (record s { stack = left; store = store })

  -- A result that is not kept; either way the stack is `below`.
  unfoldable pub forget : Outcome N W → State N W → List (Value N) → Step N W
  forget (done v store) s below = running (record s { stack = below; store = store })
  forget (thrown e store) s below = raise e (record s { stack = below; store = store })

  unfoldable pub pop_value : List (Value N) → State N W → Step N W
  pop_value [] s = fault
  pop_value (v ∷ rest) s = running (record s { stack = rest })

  unfoldable pub duplicate : List (Value N) → State N W → Step N W
  duplicate [] s = fault
  duplicate (v ∷ rest) s = running (record s { stack = v ∷ v ∷ rest })

  unfoldable pub load_slot : ℕ → ℕ → State N W → Step N W
  unfolding push
  load_slot depth i s = elim (up depth s.scope s.store.scopes) [
    | none ↦ fault
    | some t ↦ push (slot_of s.store t i) s
  ]

  unfoldable pub store_slot : ℕ → ℕ → List (Value N) → State N W → Step N W
  store_slot depth i [] s = fault
  store_slot depth i (v ∷ rest) s = elim (up depth s.scope s.store.scopes) [
    | none ↦ fault
    | some t ↦ running (record s { stack = rest; store = set_slot s.store t i v })
  ]

module _ {N W : Type 0} (host : Host N W) where
  unfoldable pub truthy : Value N → Bool
  truthy undefined = false
  truthy null = false
  truthy (bool b) = b
  truthy (num n) = not (host.is_zero_or_nan n)
  truthy (text []) = false
  truthy _ = true

  -- The variable that a member is: a scope is an array of variables.
  unfoldable pub variable : Value N → Value N → Option (ℕ × ℕ)
  variable (scope s) (num n) = elim (host.index n) [ none ↦ none | some i ↦ some (s, i) ]
  variable _ _ = none

  unfoldable pub member : Value N → Value N → Store N W → Outcome N W
  unfolding variable
  member o k store = elim (variable o k) [
    | none ↦ host.get o k store
    | some (s, i) ↦ done (slot_of store s i) store
  ]

  unfoldable pub set_member : Value N → Value N → Value N → Store N W → Outcome N W
  unfolding variable
  set_member o k v store = elim (variable o k) [
    | none ↦ host.put o k v store
    | some (s, i) ↦ done v (set_slot store s i v)
  ]

  unfoldable pub count_up : Value N → Value N → Store N W → Outcome N W
  unfolding variable
  count_up o k store = elim (variable o k) [
    | none ↦ host.increment o k store
    | some (s, i) ↦ elim (host.to_numeric (slot_of store s i) store) [
      | thrown e store' ↦ thrown e store'
      | done old store' ↦ done old (set_slot store' s i (host.add_one old))
    ]
  ]

  unfoldable pub push_slot : ℕ → ℕ → State N W → Step N W
  push_slot depth i s = elim (up depth s.scope s.store.scopes) [
    | none ↦ fault
    | some t ↦ running (record s { stack = num (host.of_int (pos i)) ∷ scope t ∷ s.stack })
  ]

  unfoldable pub make_array : ℕ → State N W → Step N W
  make_array n s = elim (pop_many n s.stack []) [
    | none ↦ fault
    | some (items, rest) ↦
        let (v, store) = host.new_array items s.store in
        running (record s { stack = v ∷ rest; store = store })
  ]

  unfoldable pub make_object : State N W → Step N W
  make_object s =
      let (v, store) = host.new_object s.store in
      running (record s { stack = v ∷ s.stack; store = store })

  unfoldable pub define : Text → List (Value N) → State N W → Step N W
  unfolding forget
  define name (v ∷ o ∷ rest) s = forget (set_member o (text name) v s.store) s (o ∷ rest)
  define name _ s = fault

  unfoldable pub get_named : Text → List (Value N) → State N W → Step N W
  unfolding settle
  get_named name (o ∷ rest) s = settle (member o (text name) s.store) s rest (o ∷ rest)
  get_named name [] s = fault

  unfoldable pub put_named : Text → List (Value N) → State N W → Step N W
  unfolding forget
  put_named name (o ∷ v ∷ rest) s = forget (set_member o (text name) v s.store) s rest
  put_named name _ s = fault

  unfoldable pub get : List (Value N) → State N W → Step N W
  unfolding settle
  get (k ∷ o ∷ rest) s = settle (member o k s.store) s rest (o ∷ rest)
  get _ s = fault

  unfoldable pub put : List (Value N) → State N W → Step N W
  unfolding forget
  put (k ∷ o ∷ v ∷ rest) s = forget (set_member o k v s.store) s rest
  put _ s = fault

  -- The value stays.
  unfoldable pub assign : List (Value N) → State N W → Step N W
  unfolding forget
  assign (k ∷ o ∷ v ∷ rest) s = forget (set_member o k v s.store) s (v ∷ rest)
  assign _ s = fault

  unfoldable pub increment : List (Value N) → State N W → Step N W
  unfolding settle
  increment (k ∷ o ∷ rest) s = settle (count_up o k s.store) s rest (o ∷ rest)
  increment _ s = fault

  unfoldable pub remove : List (Value N) → State N W → Step N W
  unfolding settle
  remove (k ∷ o ∷ rest) s = settle (host.remove o k s.store) s rest (o ∷ rest)
  remove _ s = fault

  unfoldable pub operate : Binary → Value N → Value N → Store N W → Outcome N W
  operate strict_eq a b store = done (bool (host.same a b)) store
  operate strict_ne a b store = done (bool (not (host.same a b))) store
  operate op a b store = host.binary op a b store

  unfoldable pub binary : Binary → List (Value N) → State N W → Step N W
  unfolding settle
  binary op (b ∷ a ∷ rest) s = settle (operate op a b s.store) s rest (a ∷ rest)
  binary op _ s = fault

  unfoldable pub negate : List (Value N) → State N W → Step N W
  unfolding settle
  negate (v ∷ rest) s = settle (host.negate v s.store) s rest (v ∷ rest)
  negate [] s = fault

  unfoldable pub not_value : List (Value N) → State N W → Step N W
  not_value (v ∷ rest) s = running (record s { stack = bool (not (truthy v)) ∷ rest })
  not_value [] s = fault

  unfoldable pub type_of : List (Value N) → State N W → Step N W
  type_of (v ∷ rest) s = running (record s { stack = text (host.type_of v) ∷ rest })
  type_of [] s = fault
