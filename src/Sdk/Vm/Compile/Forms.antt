-- ===== src/Sdk/Vm/Compile/Forms.antt =====
-- Code of the expressions without jumps.
use douyin_live.Prelude.{
  ℕ, suc, ◌+◌, ◌≡◌, refl, ◌∙◌, ap, [], ◌∷◌, ◌++◌, Option, none, some, arith, length, length-append,
  get_elem?, inl, inr, Option-cases, not,
}
use douyin_live.Sdk.Vm.Loader.{Program}
use douyin_live.Sdk.Vm.Decode
use douyin_live.Sdk.Vm.Decode.{decode, decode_at, Instr}
use douyin_live.Sdk.Vm.Machine.{Value, bool, Store, Outcome, done, thrown, Host, State, running}
use douyin_live.Sdk.Vm.Control.{up, slot_of, set_slot}
use douyin_live.Sdk.Vm.Exec.{step, exec}
use douyin_live.Sdk.Vm.Exec.Operators.{settle, push, truthy, member, operate, named}
use douyin_live.Sdk.Vm.Exec.Operators
use douyin_live.Sdk.Vm.Compile.{
  Expr, binary_byte, with_short, compile, eval, lit_text, variable, set_variable, operation,
  negation, inversion, kind_of, named_member, element,
}
use douyin_live.Sdk.Vm.Compile.Steps.{Steps, here, next, trans, Yields}
use douyin_live.Sdk.Vm.Compile.Fetch.{
  Holds, Holds-append, fetch, decode_binary, two_bytes_lem, short_lem, step_lem,
}
use douyin_live.Sdk.Vm.Compile.Operands.{
  and_then-eq, pushed, behind, CorrectAt, unary_correct, binary_correct,
}

module _ {N W : Type 0} (host : Host N W) (program : Program) where
  -- An instruction of one byte that pushes a value.
  pub literal :
      (op : ℕ) (i : Instr) (v : State N W → Value N) (s : State N W) (o : Outcome N W)
      → Holds program.code s.pc (op ∷ [])
      → decode_at op program.code (suc s.pc) ≡ some (i, suc s.pc)
      → exec host program i (record s { pc = suc s.pc })
        ≡ running (record s { pc = suc s.pc; stack = v s ∷ s.stack })
      → some (done (v s) s.store) ≡ some o
      → Yields host program s 1 o
  literal op i v s o h d act e =
      pushed host program s s (suc s.pc) 1 (v s) s.store o (here s)
        (step_lem host program s i (suc s.pc) (fetch program.code s.pc op _ h.0 d) ∙ act)
        (omega arith) e

  -- An instruction of one byte, where it stands.
  plain_at :
      (op : ℕ) (i : Instr) (pc : ℕ)
      → decode_at op program.code (suc pc) ≡ some (i, suc pc)
      → Holds program.code pc (op ∷ [])
      → decode program.code pc ≡ some (i, pc + 1)
  plain_at op i pc d h =
      let e : suc pc ≡ pc + 1 = omega arith in
      fetch program.code pc op _ h.0 d ∙ ap (λ (t : ℕ). some (i, t)) e

  pub text_correct :
      (name : ℕ) (s : State N W) (o : Outcome N W)
      → Holds program.code s.pc (with_short 7 name)
      → eval host program s.this s.scope (lit_text name) s.store ≡ some o
      → Yields host program s 3 o
  unfolding eval exec with_short decode_at named push
  text_correct name s o h e = elim (Option-cases (get_elem? program.strings name)) [
    | inl missing ↦ let no_meaning : none ≡ some o = rw (missing, eval) at e in cc
    | inr (t, there) ↦
        let meaning : some (done (Value.text t) s.store) ≡ some o = rw (there, eval) at e in
        pushed host program s s (suc (suc (suc s.pc))) 3 (Value.text t) s.store o (here s)
          (step_lem host program s (Decode.push_text name) (suc (suc (suc s.pc))) (
              fetch program.code s.pc 7 _ h.0
                (short_lem program.code (suc s.pc) Decode.push_text name h.1))
            ∙ (rw (there, named) refl))
          (omega arith) meaning
  ]

  pub variable_correct :
      (depth i : ℕ) (s : State N W) (o : Outcome N W)
      → Holds program.code s.pc (17 ∷ depth ∷ i ∷ [])
      → eval host program s.this s.scope (variable depth i) s.store ≡ some o
      → Yields host program s 3 o
  unfolding eval exec decode_at Operators.load_slot
  variable_correct depth i s o h e = elim (Option-cases (up depth s.scope s.store.scopes)) [
    | inl missing ↦ let no_meaning : none ≡ some o = rw (missing, eval) at e in cc
    | inr (t, there) ↦
        let meaning : some (done (slot_of s.store t i) s.store) ≡ some o = rw (there, eval) at e in
        pushed host program s s (suc (suc (suc s.pc))) 3 (slot_of s.store t i) s.store o (here s)
          (step_lem host program s (Decode.load_slot depth i) (suc (suc (suc s.pc))) (
              fetch program.code s.pc 17 _ h.0
                (two_bytes_lem program.code (suc s.pc) Decode.load_slot depth i h.1))
            ∙ (rw (there, Operators.load_slot) refl))
          (omega arith) meaning
  ]

  -- The meaning of an assignment, behind its value.
  abbrev stored : ℕ → ℕ → ℕ → Value N → Store N W → Option (Outcome N W)
  stored depth i scope v store = elim (up depth scope store.scopes) [
    | none ↦ none
    | some t ↦ some (done v (set_slot store t i v))
  ]

  -- The value is doubled, and stored once.
  store_correct :
      (depth i : ℕ) (s : State N W) (m n : ℕ) (v : Value N) (store : Store N W) (o : Outcome N W)
      → Steps host program s (behind host program s m v store)
      → stored depth i s.scope v store ≡ some o
      → Holds program.code (s.pc + m) (74 ∷ 20 ∷ depth ∷ i ∷ [])
      → n ≡ m + 4
      → Yields host program s n o
  unfolding exec decode_at Operators.duplicate Operators.store_slot
  store_correct depth i s m n v store o ran meaning h size =
      let t = behind host program s m v store in
      let u = record t { pc = suc t.pc; stack = v ∷ v ∷ s.stack } in
      let doubled : step host program t ≡ running u =
        step_lem host program t Decode.duplicate (suc t.pc)
          (fetch program.code t.pc 74 _ h.0 refl) in
      elim (Option-cases (up depth s.scope store.scopes)) [
        | inl missing ↦ let no_meaning : none ≡ some o = rw (missing, stored) at meaning in cc
        | inr (r, there) ↦
            pushed host program s u (suc (suc (suc u.pc))) n v (set_slot store r i v) o
              (trans host program ran (next t u u doubled (here u)))
              (step_lem host program u (Decode.store_slot depth i) (suc (suc (suc u.pc))) (
                  fetch program.code u.pc 20 _ h.1.0
                    (two_bytes_lem program.code (suc u.pc) Decode.store_slot depth i h.1.1))
                ∙ (rw (there, Operators.store_slot) refl))
              (omega arith) (rw (there, stored) at meaning)
      ]

  pub set_correct :
      (depth i : ℕ) (a : Expr)
      → CorrectAt host program a
      → (s : State N W) (o : Outcome N W)
      → Holds program.code s.pc (compile a ++ 74 ∷ 20 ∷ depth ∷ i ∷ [])
      → eval host program s.this s.scope (set_variable depth i a) s.store ≡ some o
      → Yields host program s (length (compile a ++ 74 ∷ 20 ∷ depth ∷ i ∷ [])) o
  unfolding eval
  set_correct depth i a ih s o h e =
      let m = length (compile a) in
      let bytes = 74 ∷ 20 ∷ depth ∷ i ∷ [] in
      let (ha, hop) = Holds-append program.code s.pc (compile a) bytes h in
      elim (and_then-eq (eval host program s.this s.scope a s.store)
        (λ v store. stored depth i s.scope v store) o e) [
          | inr (x, store, first, eo) ↦ rw eo (ih s (thrown x store) ha first)
          | inl (v, store, first, rest) ↦
              store_correct depth i s m (length (compile a ++ bytes)) v store o
                (ih s (done v store) ha first) rest hop (length-append (compile a) bytes)
        ]

  pub negation_correct : (a : Expr) → CorrectAt host program a → CorrectAt host program (negation a)
  unfolding compile eval exec decode_at Operators.negate
  negation_correct a ih =
      unary_correct host program a (29 ∷ []) Decode.negate (λ v store. some (host.negate v store))
        ih (λ pc. plain_at 29 Decode.negate pc refl)
        (λ s pc v store o e. let same : host.negate v store ≡ o = cc in rw (← same) refl)

  pub inversion_correct :
      (a : Expr) → CorrectAt host program a → CorrectAt host program (inversion a)
  unfolding compile eval exec decode_at Operators.not_value settle
  inversion_correct a ih =
      unary_correct host program a (50 ∷ []) Decode.not_value
        (λ v store. some (done (bool (not (truthy host v))) store)) ih
        (λ pc. plain_at 50 Decode.not_value pc refl)
        (λ s pc v store o e.
          let same : done (bool (not (truthy host v))) store ≡ o = cc in rw (← same) refl)

  pub kind_correct : (a : Expr) → CorrectAt host program a → CorrectAt host program (kind_of a)
  unfolding compile eval exec decode_at Operators.type_of settle
  kind_correct a ih =
      unary_correct host program a (58 ∷ []) Decode.type_of
        (λ v store. some (done (Value.text (host.type_of v)) store)) ih
        (λ pc. plain_at 58 Decode.type_of pc refl)
        (λ s pc v store o e.
          let same : done (Value.text (host.type_of v)) store ≡ o = cc in rw (← same) refl)

  pub operation_correct :
      (op : Decode.Binary) (a b : Expr)
      → CorrectAt host program a
      → CorrectAt host program b
      → CorrectAt host program (operation op a b)
  unfolding compile eval exec Operators.binary
  operation_correct op a b iha ihb =
      binary_correct host program a b (binary_byte op ∷ []) (Decode.binary op)
        (λ v w store. some (operate host op v w store)) iha ihb
        (λ pc h.
          let e : suc pc ≡ pc + 1 = omega arith in
          decode_binary op program.code pc h.0 ∙ ap (λ (t : ℕ). some (Decode.binary op, t)) e)
        (λ s pc v w store o e. let same : operate host op v w store ≡ o = cc in rw (← same) refl)

  pub element_correct :
      (a k : Expr)
      → CorrectAt host program a
      → CorrectAt host program k
      → CorrectAt host program (element a k)
  unfolding compile eval exec decode_at Operators.get
  element_correct a k iha ihk =
      binary_correct host program a k (19 ∷ []) Decode.get
        (λ v w store. some (member host v w store)) iha ihk (λ pc. plain_at 19 Decode.get pc refl)
        (λ s pc v w store o e. let same : member host v w store ≡ o = cc in rw (← same) refl)

  pub named_correct :
      (a : Expr) (name : ℕ)
      → CorrectAt host program a
      → CorrectAt host program (named_member a name)
  unfolding compile eval exec decode_at with_short Operators.get_named named
  named_correct a name ih =
      unary_correct host program a (with_short 18 name) (Decode.get_named name)
        (λ v store. elim (get_elem? program.strings name) [
          | none ↦ none
          | some t ↦ some (member host v (Value.text t) store)
        ])
        ih
        (λ pc h.
          let e : suc (suc (suc pc)) ≡ pc + 3 = omega arith in
          fetch program.code pc 18 _ h.0 (short_lem program.code (suc pc) Decode.get_named name h.1)
          ∙ ap (λ (t : ℕ). some (Decode.get_named name, t)) e)
        (λ s pc v store o e. elim (Option-cases (get_elem? program.strings name)) [
          | inl missing ↦ let no_meaning : none ≡ some o = rw missing at e in cc
          | inr (t, there) ↦
              let meaning : some (member host v (Value.text t) store) ≡ some o = rw there at e in
              let same : member host v (Value.text t) store ≡ o = cc in
              rw (← same, there, named) refl
        ])
