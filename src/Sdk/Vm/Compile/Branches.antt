-- ===== src/Sdk/Vm/Compile/Branches.antt =====
-- Code with jumps: `&&`, `||` and `?:`.
use douyin_live.Prelude.{
  ℕ, suc, ◌+◌, ◌^◌, ◌<◌, ◌≡◌, refl, ◌∙◌, Bool, true, false, List, ◌∷◌, ◌++◌, some, arith, length,
  length-append, if◌then◌else◌, inl, inr, lt→ltb,
}
use douyin_live.Sdk.Vm.Loader.{Program}
use douyin_live.Sdk.Vm.Decode.{Instr, decode_at, jump, jump_unless}
use douyin_live.Sdk.Vm.Machine.{Value, Store, Outcome, done, thrown, Host, State, running}
use douyin_live.Sdk.Vm.Exec.{step, exec}
use douyin_live.Sdk.Vm.Exec.Operators.{truthy}
use douyin_live.Sdk.Vm.Exec.Jumps
use douyin_live.Sdk.Vm.Exec.Jumps.{target, jump_by}
use douyin_live.Sdk.Vm.Compile.{Expr, with_short, compile, and_then, eval}
use douyin_live.Sdk.Vm.Compile.Steps.{Steps, here, next, trans, Yields}
use douyin_live.Sdk.Vm.Compile.Fetch.{Holds, Holds-append, fetch, short_lem, step_lem}
use douyin_live.Sdk.Vm.Compile.Operands.{and_then-eq, pushed, behind, CorrectAt}

module _ {N W : Type 0} where
  jump_by_lem :
      (n : ℕ) (s : State N W) → n < 2 ^ 15 → jump_by n s ≡ running (record s { pc = s.pc + n })
  unfolding jump_by target
  jump_by_lem n s h = rw (lt→ltb n (2 ^ 15) h, jump_by) refl

module _ {N W : Type 0} (host : Host N W) (program : Program) where
  -- An instruction with a word of 16 bits, where it stands.
  short_step :
      (op n : ℕ) (i : Instr) (s : State N W)
      → decode_at op program.code (suc s.pc) ≡ some (i, suc (suc (suc s.pc)))
      → Holds program.code s.pc (with_short op n)
      → step host program s ≡ exec host program i (record s { pc = s.pc + 3 })
  unfolding with_short
  short_step op n i s d h =
      let e : suc (suc (suc s.pc)) ≡ s.pc + 3 = omega arith in
      rw (← e)
        (step_lem host program s i (suc (suc (suc s.pc))) (fetch program.code s.pc op _ h.0 d))

  -- What starts with the stack as it was goes on as the whole.
  resumed :
      (s : State N W) (pc m n : ℕ) (store : Store N W) (o : Outcome N W)
      → Steps host program s (record s { pc = pc; store = store })
      → Yields host program (record s { pc = pc; store = store }) m o
      → pc + m ≡ s.pc + n
      → Yields host program s n o
  resumed s pc m n store (done v store') run y e = trans host program run (rw e at y)
  resumed s pc m n store (thrown x store') run (t, pc', left, steps, raised) e =
      (t, pc', left, trans host program run steps, raised)

  length-with_short : (op n : ℕ) → length (with_short op n) ≡ 3
  unfolding with_short
  length-with_short op n = refl

  module _ (b : Expr) (ihb : CorrectAt host program b) (small : length (compile b) < 2 ^ 15) where
    abbrev size_b : ℕ
    size_b = length (compile b)

    -- Behind the first operand: the jump over the second, or the second.
    second_operand :
        (s : State N W) (m n : ℕ) (v : Value N) (store : Store N W) (skip : Bool) (o : Outcome N W)
        → Steps host program s (behind host program s m v store)
        → step host program (behind host program s m v store) ≡ (
            if skip
            then jump_by size_b (record s { pc = s.pc + m + 3; stack = v ∷ s.stack; store = store })
            else running (record s { pc = s.pc + m + 3; store = store }))
        → (if skip then some (done v store) else eval host program s.this s.scope b store) ≡ some o
        → Holds program.code (s.pc + m + 3) (compile b)
        → n ≡ m + (3 + size_b)
        → Yields host program s n o
    second_operand s m n v store true o ran jumped rest hb size =
        pushed host program s (behind host program s m v store) (s.pc + m + 3 + size_b) n v store o
          ran
          (jumped
            ∙ jump_by_lem size_b
                (record s { pc = s.pc + m + 3; stack = v ∷ s.stack; store = store }) small)
          (omega arith) rest
    second_operand s m n v store false o ran jumped rest hb size =
        let s' = record s { pc = s.pc + m + 3; store = store } in
        resumed s (s.pc + m + 3) size_b n store o
          (trans host program ran (next (behind host program s m v store) s' s' jumped (here s')))
          (ihb s' o hb rest) (omega arith)

  module _ (a b : Expr) (iha : CorrectAt host program a) (ihb : CorrectAt host program b) where
    -- `skip v` tells that the value of the first operand is that of the whole.
    pub short_circuit :
        (op : ℕ) (i : Instr) (skip : Value N → Bool)
        → length (compile b) < 2 ^ 15
        → ((pc : ℕ)
            → Holds program.code pc (with_short op (length (compile b)))
            → decode_at op program.code (suc pc) ≡ some (i, suc (suc (suc pc))))
        → ((s : State N W) (pc : ℕ) (v : Value N) (store : Store N W)
            → exec host program i (record s { pc = pc; stack = v ∷ s.stack; store = store }) ≡ (
                if skip v
                then jump_by
                    (length (compile b))
                    (record s { pc = pc; stack = v ∷ s.stack; store = store })
                else running (record s { pc = pc; store = store })))
        → (s : State N W) (o : Outcome N W)
        → Holds program.code s.pc (compile a ++ (with_short op (length (compile b)) ++ compile b))
        → and_then (eval host program s.this s.scope a s.store) (λ v store.
          if skip v then some (done v store) else eval host program s.this s.scope b store)
          ≡ some o
        → Yields host program s
            (length (compile a ++ (with_short op (length (compile b)) ++ compile b)))
            o
    short_circuit op i skip small at act s o h e =
        let m = length (compile a) in
        let jump_code = with_short op (length (compile b)) in
        let three = length-with_short op (length (compile b)) in
        let (ha, hrest) = Holds-append program.code s.pc (compile a) (jump_code ++ compile b) h in
        let (hop, hb) = Holds-append program.code (s.pc + m) jump_code (compile b) hrest in
        elim (and_then-eq (eval host program s.this s.scope a s.store)
          (λ v store.
            if skip v then some (done v store) else eval host program s.this s.scope b store)
          o e) [
            | inr (x, store, first, eo) ↦ rw eo (iha s (thrown x store) ha first)
            | inl (v, store, first, rest) ↦
                let t = behind host program s m v store in
                second_operand b ihb small s m (length (compile a ++ (jump_code ++ compile b))) v
                  store (skip v) o (iha s (done v store) ha first)
                  (short_step op (length (compile b)) i t (at t.pc hop) hop
                    ∙ act s (t.pc + 3) v store)
                  rest (rw three at hb)
                  (omega (
                    arith,
                    three,
                    length-append {0} (compile a) (jump_code ++ compile b),
                    length-append {0} jump_code (compile b),
                  ))
          ]

  jump_unless_step :
      (n : ℕ) (s : State N W) (m : ℕ) (v : Value N) (store : Store N W)
      → Holds program.code (s.pc + m) (with_short 71 n)
      → step host program (behind host program s m v store) ≡ (
          if truthy host v
          then running (record s { pc = s.pc + m + 3; store = store })
          else jump_by n (record s { pc = s.pc + m + 3; store = store }))
  unfolding exec Jumps.jump_unless
  jump_unless_step n s m v store h =
      let t = behind host program s m v store in
      short_step 71 n (jump_unless n) t
        (unfold decode_at in
          short_lem program.code (suc t.pc) jump_unless n (unfold with_short in h.1))
        h

  -- A value that is followed by a jump.
  skip_else :
      (s : State N W) (m n : ℕ) (o : Outcome N W)
      → n < 2 ^ 15
      → Holds program.code (s.pc + m) (with_short 69 n)
      → Yields host program s m o
      → Yields host program s (m + (3 + n)) o
  skip_else s m n (done v store) small h y =
      let t = behind host program s m v store in
      pushed host program s t (t.pc + 3 + n) (m + (3 + n)) v store (done v store) y
        (short_step 69 n (jump n) t
            (unfold decode_at in
              short_lem program.code (suc t.pc) jump n (unfold with_short in h.1))
            h
          ∙ (unfold exec in jump_by_lem n (record t { pc = t.pc + 3 }) small))
        (omega arith) refl
  skip_else s m n (thrown e store) small h y = y

  module _ (c a b : Expr) (ihc : CorrectAt host program c) (iha : CorrectAt host program a)
      (ihb : CorrectAt host program b) (small_a : length (compile a) + 3 < 2 ^ 15)
      (small_b : length (compile b) < 2 ^ 15) where
    abbrev la : ℕ
    la = length (compile a)

    abbrev lb : ℕ
    lb = length (compile b)

    abbrev rest_code : List ℕ
    rest_code = compile a ++ (with_short 69 lb ++ compile b)

    -- Behind the condition: the first branch with the jump over the second, or the second.
    branch :
        (s : State N W) (m n : ℕ) (v : Value N) (store : Store N W) (test : Bool) (o : Outcome N W)
        → Steps host program s (behind host program s m v store)
        → step host program (behind host program s m v store) ≡ (
            if test
            then running (record s { pc = s.pc + m + 3; store = store })
            else jump_by (la + 3) (record s { pc = s.pc + m + 3; store = store }))
        → (if test
            then eval host program s.this s.scope a store
            else eval host program s.this s.scope b store)
          ≡ some o
        → Holds program.code (s.pc + m + 3) rest_code
        → n ≡ m + (3 + (la + (3 + lb)))
        → Yields host program s n o
    branch s m n v store true o ran jumped rest h size =
        let s' = record s { pc = s.pc + m + 3; store = store } in
        let (ha, hrest) =
          Holds-append program.code s'.pc (compile a) (with_short 69 lb ++ compile b) h in
        let (hop, hb) =
          Holds-append program.code (s'.pc + la) (with_short 69 lb) (compile b) hrest in
        resumed s (s.pc + m + 3) (la + (3 + lb)) n store o
          (trans host program ran (next (behind host program s m v store) s' s' jumped (here s')))
          (skip_else s' la lb o small_b hop (iha s' o ha rest)) (omega arith)
    branch s m n v store false o ran jumped rest h size =
        let s' = record s { pc = s.pc + m + 3 + (la + 3); store = store } in
        let (ha, hrest) =
          Holds-append program.code (s.pc + m + 3) (compile a) (with_short 69 lb ++ compile b) h in
        let (hop, hb) =
          Holds-append program.code (s.pc + m + 3 + la) (with_short 69 lb) (compile b) hrest in
        let place : s.pc + m + 3 + la + length (with_short 69 lb) ≡ s'.pc =
          omega (arith, length-with_short 69 lb) in
        resumed s s'.pc lb n store o
          (trans host program ran (
            next (behind host program s m v store) s' s'
              (jumped
                ∙ jump_by_lem (la + 3) (record s { pc = s.pc + m + 3; store = store }) small_a)
              (here s')))
          (ihb s' o (rw place at hb) rest) (omega arith)

    pub choice_correct :
        (s : State N W) (o : Outcome N W)
        → Holds program.code s.pc (compile c ++ (with_short 71 (la + 3) ++ rest_code))
        → and_then (eval host program s.this s.scope c s.store) (λ v store.
          if truthy host v
          then eval host program s.this s.scope a store
          else eval host program s.this s.scope b store)
          ≡ some o
        → Yields host program s (length (compile c ++ (with_short 71 (la + 3) ++ rest_code))) o
    choice_correct s o h e =
        let m = length (compile c) in
        let jump_code = with_short 71 (la + 3) in
        let three = length-with_short 71 (la + 3) in
        let (hc, hrest) = Holds-append program.code s.pc (compile c) (jump_code ++ rest_code) h in
        let (hop, hbody) = Holds-append program.code (s.pc + m) jump_code rest_code hrest in
        elim (and_then-eq (eval host program s.this s.scope c s.store)
          (λ v store.
            if truthy host v
            then eval host program s.this s.scope a store
            else eval host program s.this s.scope b store)
          o e) [
            | inr (x, store, first, eo) ↦ rw eo (ihc s (thrown x store) hc first)
            | inl (v, store, first, rest) ↦
                let t = behind host program s m v store in
                branch s m (length (compile c ++ (jump_code ++ rest_code))) v store (truthy host v)
                  o (ihc s (done v store) hc first) (jump_unless_step (la + 3) s m v store hop) rest
                  (rw three at hbody)
                  (omega (
                    arith,
                    three,
                    length-with_short 69 lb,
                    length-append {0} (compile c) (jump_code ++ rest_code),
                    length-append {0} jump_code rest_code,
                    length-append {0} (compile a) (with_short 69 lb ++ compile b),
                    length-append {0} (with_short 69 lb) (compile b),
                  ))
          ]
