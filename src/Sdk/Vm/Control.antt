-- ===== src/Sdk/Vm/Control.antt =====
-- jsScript/webmssdk.js: the parts of the interpreter that instructions share. Variables are slots
-- of scopes; lines 334 to 372 handle an exception, and lines 249 to 303 leave a function.
use douyin_live.Prelude.{
  ℕ, zero, suc, List, [], ◌∷◌, ◌++◌, Option, none, some, get_elem?, set, length,
}
use douyin_live.Sdk.Vm.Machine.{
  Value, undefined, Scope, Closure, Store, spent, single, last, both, Try, normal, throwing, Frame,
  State, Step, running, returned, uncaught,
}

-- `(e = tries.pop()) && !e[0]`: the first entry that is not spent, and those below it.
unfoldable pub pick : List Try → Option (Try × List Try)
pick [] = none
pick (t ∷ tries) = elim t.kind [
  | spent ↦ pick tries
  | single ↦ some (t, tries)
  | last ↦ some (t, tries)
  | both ↦ some (t, tries)
]

-- `while (e = tries.pop()) if (e[0] is 2 or 3) break`
unfoldable pub pick_last : List Try → Option (Try × List Try)
pick_last [] = none
pick_last (t ∷ tries) = elim t.kind [
  | spent ↦ pick_last tries
  | single ↦ pick_last tries
  | last ↦ some (t, tries)
  | both ↦ some (t, tries)
]

module _ {N : Type 0} where
  -- The scope so many levels up.
  unfoldable pub up : ℕ → ℕ → List (Scope N) → Option ℕ
  up zero s scopes = some s
  up (suc depth) s scopes = elim (get_elem? scopes s) [
    | none ↦ none
    | some here ↦ elim here.parent [ none ↦ none | some around ↦ up depth around scopes ]
  ]

  unfoldable pub read_slot : List (Value N) → ℕ → Value N
  read_slot slots i = elim (get_elem? slots i) [ none ↦ undefined | some v ↦ v ]

  -- An array grows when it is written behind its end.
  unfoldable pub write_slot : List (Value N) → ℕ → Value N → List (Value N)
  write_slot [] zero v = v ∷ []
  write_slot [] (suc i) v = undefined ∷ write_slot [] i v
  write_slot (x ∷ slots) zero v = v ∷ slots
  write_slot (x ∷ slots) (suc i) v = x ∷ write_slot slots i v

  -- The frames from the top on, until one of them has such an entry.
  unfoldable pub pick_frame : List (Frame N) → Option (Try × List Try × Frame N × List (Frame N))
  unfolding pick
  pick_frame [] = none
  pick_frame (f ∷ frames) =
      let outer = pick_frame frames in
      elim (pick f.tries) [ none ↦ outer | some (t, tries) ↦ some (t, tries, f, frames) ]

module _ {N W : Type 0} where
  unfoldable pub slot_of : Store N W → ℕ → ℕ → Value N
  unfolding read_slot
  slot_of store s i = elim (get_elem? store.scopes s) [
    | none ↦ undefined
    | some here ↦ read_slot here.slots i
  ]

  unfoldable pub set_slot : Store N W → ℕ → ℕ → Value N → Store N W
  unfolding write_slot
  set_slot store s i v = elim (get_elem? store.scopes s) [
    | none ↦ store
    | some here ↦ record store {
      scopes = set store.scopes s (record here { slots = write_slot here.slots i v });
    }
  ]

  -- A new scope, at the end of the list.
  unfoldable pub new_scope : List (Value N) → Option ℕ → Store N W → ℕ × Store N W
  new_scope slots parent store = (
    length store.scopes,
    record store { scopes = store.scopes ++ record { slots = slots; parent = parent } ∷ [] },
  )

  unfoldable pub new_closure : Closure → Store N W → ℕ × Store N W
  new_closure c store =
      (length store.closures, record store { closures = store.closures ++ c ∷ [] })

  -- The handler of an entry takes over: lines 356 to 371.
  unfoldable pub enter : Value N → Try → List Try → State N W → State N W
  enter e t tries s = elim t.kind [
    | last ↦ record s {
      pc = t.first;
      tries = record t { kind = spent } ∷ tries;
      completion = throwing e;
    }
    | single ↦ record s {
      pc = t.first;
      tries = record t { kind = spent } ∷ tries;
      stack = e ∷ s.stack;
      completion = normal;
    }
    | both ↦ record s {
      pc = elim t.second [ none ↦ 0 | some h ↦ h ];
      tries = record t { kind = last } ∷ tries;
      stack = e ∷ s.stack;
      completion = normal;
    }
    | spent ↦ s
  ]

  -- `catch (e)`, lines 334 to 371.
  unfoldable pub raise : Value N → State N W → Step N W
  unfolding pick pick_frame enter
  raise e s = elim (pick s.tries) [
    | some (t, tries) ↦ running (enter e t tries s)
    | none ↦ elim (pick_frame s.frames) [
      | none ↦ uncaught e s.store
      | some (t, tries, f, frames) ↦
          running (enter e t tries (record s { this = f.this; scope = f.scope; frames = frames }))
    ]
  ]

  -- Back to the caller: lines 254 to 265 and 293 to 301.
  unfoldable pub leave : Value N → State N W → Step N W
  leave v s = elim s.frames [
    | [] ↦ returned v s.store
    | f ∷ frames ↦ running (record s {
      pc = f.pc;
      this = f.this;
      scope = f.scope;
      tries = f.tries;
      stack = v ∷ s.stack;
      completion = normal;
      frames = frames;
    })
  ]
