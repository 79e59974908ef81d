-- ===== src/Sdk/Vm/Compile/Operands.antt =====
-- Code of operands, followed by the instruction that takes them.
use douyin_live.Prelude.{
  ℕ, ◌+◌, ◌≡◌, refl, sym, ◌∙◌, ap, List, [], ◌∷◌, ◌++◌, Option, none, some, arith, length,
  length-append, append_assoc, ◌⊎◌, inl, inr,
}
use douyin_live.Sdk.Vm.Loader.{Program}
use douyin_live.Sdk.Vm.Decode.{Instr, decode}
use douyin_live.Sdk.Vm.Machine.{Value, Store, Outcome, done, thrown, Host, State, running}
use douyin_live.Sdk.Vm.Control.{raise}
use douyin_live.Sdk.Vm.Exec.{step, exec}
use douyin_live.Sdk.Vm.Exec.Operators.{settle}
use douyin_live.Sdk.Vm.Compile.{Expr, compile, and_then, eval}
use douyin_live.Sdk.Vm.Compile.Steps.{Steps, here, next, trans, Yields}
use douyin_live.Sdk.Vm.Compile.Fetch.{Holds, Holds-append, step_lem}

module _ {N W : Type 0} where
  pub and_then-eq :
      (m : Option (Outcome N W)) (f : Value N → Store N W → Option (Outcome N W)) (o : Outcome N W)
      → and_then m f ≡ some o
      → ((v : Value N) × (store : Store N W) × (m ≡ some (done v store)) × (f v store ≡ some o))
        ⊎ ((e : Value N) × (store : Store N W) × (m ≡ some (thrown e store)) × (o ≡ thrown e store))
  unfolding and_then
  and_then-eq none f o h = cc
  and_then-eq (some (done v store)) f o h = inl (v, store, refl, h)
  and_then-eq (some (thrown e store)) f o h = inr (e, store, refl, cc)

module _ {N W : Type 0} (host : Host N W) (program : Program) where
  -- What is raised above more values is raised, with these values left behind.
  pub raised_above :
      (s : State N W) (pc : ℕ) (above : List (Value N)) (store : Store N W) (m n : ℕ) (e : Value N)
      (store' : Store N W)
      → Steps host program s (record s { pc = pc; stack = above ++ s.stack; store = store })
      → Yields host program
          (record s { pc = pc; stack = above ++ s.stack; store = store })
          m
          (thrown e store')
      → Yields host program s n (thrown e store')
  raised_above s pc above store m n e store' run (t, pc', left, steps, raised) = (
    t,
    pc',
    left ++ above,
    trans host program run steps,
    raised
        ∙ ap (λ (l : List (Value N)). raise e (record s { pc = pc'; stack = l; store = store' }))
            (sym (append_assoc left above s.stack)),
  )

  -- The last step of an expression.
  pub settled :
      (s t : State N W) (pc n : ℕ) (above operands : List (Value N)) (store : Store N W)
      (o : Outcome N W)
      → Steps host program s t
      → step host program t
        ≡ settle o
            (record s { pc = pc; stack = operands; store = store })
            s.stack
            (above ++ s.stack)
      → pc ≡ s.pc + n
      → Yields host program s n o
  unfolding settle
  settled s t pc n above operands store (done v store') run last e = trans host program run (
      next t (record s { pc = s.pc + n; stack = v ∷ s.stack; store = store' }) _ (rw (← e) last)
        (here _))
  settled s t pc n above operands store (thrown x store') run last e = (t, pc, above, run, last)

  -- A step that pushes a value.
  pub pushed :
      (s t : State N W) (pc n : ℕ) (v : Value N) (store : Store N W) (o : Outcome N W)
      → Steps host program s t
      → step host program t ≡ running (record s { pc = pc; stack = v ∷ s.stack; store = store })
      → pc ≡ s.pc + n
      → some (done v store) ≡ some o
      → Yields host program s n o
  unfolding settle
  pushed s t pc n v store o run last e h =
      let same : done v store ≡ o = cc in
      rw (← same) (settled s t pc n [] [] store (done v store) run last e)

  -- The state behind an operand.
  abbrev pub behind : State N W → ℕ → Value N → Store N W → State N W
  behind s n v store = record s { pc = s.pc + n; stack = v ∷ s.stack; store = store }

  abbrev pub CorrectAt : Expr → Type 0
  CorrectAt a =
      (s : State N W) (o : Outcome N W)
      → Holds program.code s.pc (compile a)
      → eval host program s.this s.scope a s.store ≡ some o
      → Yields host program s (length (compile a)) o

  -- An operand, and an instruction that takes its value.
  pub unary_correct :
      (a : Expr) (bytes : List ℕ) (i : Instr) (f : Value N → Store N W → Option (Outcome N W))
      → CorrectAt a
      → ((pc : ℕ)
          → Holds program.code pc bytes
          → decode program.code pc ≡ some (i, pc + length bytes))
      → ((s : State N W) (pc : ℕ) (v : Value N) (store : Store N W) (o : Outcome N W)
          → f v store ≡ some o
          → exec host program i (record s { pc = pc; stack = v ∷ s.stack; store = store })
            ≡ settle o
                (record s { pc = pc; stack = v ∷ s.stack; store = store })
                s.stack
                (v ∷ s.stack))
      → (s : State N W) (o : Outcome N W) → Holds program.code s.pc (compile a ++ bytes)
      → and_then (eval host program s.this s.scope a s.store) f ≡ some o
      → Yields host program s (length (compile a ++ bytes)) o
  unary_correct a bytes i f ih at act s o h e =
      let (ha, hop) = Holds-append program.code s.pc (compile a) bytes h in
      let m = length (compile a) in
      elim (and_then-eq (eval host program s.this s.scope a s.store) f o e) [
        | inr (x, store, first, eo) ↦ rw eo (ih s (thrown x store) ha first)
        | inl (v, store, first, rest) ↦
            let t = behind s m v store in
            let size : length (compile a ++ bytes) ≡ m + length bytes =
              length-append (compile a) bytes in
            settled s t (t.pc + length bytes) (length (compile a ++ bytes)) (v ∷ []) (v ∷ s.stack)
              store o (ih s (done v store) ha first)
              (step_lem host program t i (t.pc + length bytes) (at t.pc hop)
                ∙ act s (t.pc + length bytes) v store o rest)
              (omega (arith, size))
      ]

  -- Two operands, and an instruction that takes both.
  pub binary_correct :
      (a b : Expr) (bytes : List ℕ) (i : Instr)
      (f : Value N → Value N → Store N W → Option (Outcome N W))
      → CorrectAt a
      → CorrectAt b
      → ((pc : ℕ)
          → Holds program.code pc bytes
          → decode program.code pc ≡ some (i, pc + length bytes))
      → ((s : State N W) (pc : ℕ) (v w : Value N) (store : Store N W) (o : Outcome N W)
          → f v w store ≡ some o
          → exec host program i (record s { pc = pc; stack = w ∷ v ∷ s.stack; store = store })
            ≡ settle o
                (record s { pc = pc; stack = w ∷ v ∷ s.stack; store = store })
                s.stack
                (v ∷ s.stack))
      → (s : State N W) (o : Outcome N W)
      → Holds program.code s.pc (compile a ++ (compile b ++ bytes))
      → and_then (eval host program s.this s.scope a s.store) (λ v store.
        and_then (eval host program s.this s.scope b store) (λ w store'. f v w store'))
        ≡ some o
      → Yields host program s (length (compile a ++ (compile b ++ bytes))) o
  binary_correct a b bytes i f iha ihb at act s o h e =
      let m = length (compile a) in
      let k = length (compile b) in
      let n = length (compile a ++ (compile b ++ bytes)) in
      let (ha, hrest) = Holds-append program.code s.pc (compile a) (compile b ++ bytes) h in
      let (hb, hop) = Holds-append program.code (s.pc + m) (compile b) bytes hrest in
      let size : n ≡ m + (k + length bytes) =
        length-append (compile a) (compile b ++ bytes)
        ∙ ap (λ (t : ℕ). m + t) (length-append (compile b) bytes) in
      elim (and_then-eq (eval host program s.this s.scope a s.store)
        (λ v store. and_then (eval host program s.this s.scope b store) (λ w store'. f v w store'))
        o e) [
          | inr (x, store, first, eo) ↦ rw eo (iha s (thrown x store) ha first)
          | inl (v, store, first, rest) ↦
              let ran = iha s (done v store) ha first in
              let s' = behind s m v store in
              elim (and_then-eq (eval host program s.this s.scope b store) (f v) o rest) [
                | inr (x, store', second, eo) ↦ rw eo (
                    raised_above s (s.pc + m) (v ∷ []) store k n x store' ran
                      (ihb s' (thrown x store') hb second))
                | inl (w, store', second, last) ↦
                    let t = behind s' k w store' in
                    settled s t (t.pc + length bytes) n (v ∷ []) (w ∷ v ∷ s.stack) store' o
                      (trans host program ran (ihb s' (done w store') hb second))
                      (step_lem host program t i (t.pc + length bytes) (at t.pc hop)
                        ∙ act s (t.pc + length bytes) v w store' o last)
                      (omega (arith, size))
              ]
        ]
