-- ===== src/Sdk/Vm/Decode.antt =====
-- jsScript/webmssdk.js, lines 102 to 333: the instructions of the interpreter. The source tests the
-- number of the instruction in a tree of comparisons and reads the operands from the code where it
-- needs them; `decode` makes the same tests in the same order and returns the instruction with its
-- operands. An operand behind the end of the code has no meaning here (`none`).
use douyin_live.Prelude.{
  ℕ, suc, ◌+◌, ◌*◌, ◌^◌, Bool, true, false, List, Option, none, some, ltb, ◌==◌, if◌then◌else◌,
  get_elem?,
}
use douyin_live.Prelude.Int.{ℤ, signed}

pub data Binary : Type 0 where
  add sub mul div rem : Binary
  loose_eq loose_ne strict_eq strict_ne : Binary
  less greater greater_eq : Binary
  shift_left shift_right shift_right_zero : Binary
  bits_and bits_or bits_xor : Binary
  member_of instance_of : Binary

-- A name is an index into the strings, a target an offset of 16 bits.
pub data Instr : Type 0 where
  push_bool : Bool → Instr
  push_null push_undefined push_this : Instr
  push_int : ℤ → Instr
  push_parsed push_text : ℕ → Instr
  make_array : ℕ → Instr
  make_object : Instr
  define get_named put_named : ℕ → Instr
  get put assign increment remove : Instr
  load_slot store_slot push_slot : ℕ → ℕ → Instr
  binary : Binary → Instr
  negate not_value type_of : Instr
  make_closure make_named : ℕ → Instr
  end_try begin_try : ℕ → Instr
  throw_value finish return_value : Instr
  call construct : ℕ → Instr
  and_jump or_jump jump jump_unless jump_case : ℕ → Instr
  pop_value duplicate : Instr

-- The operands: an instruction with what stands behind them.
abbrev Decoded : Type 0
Decoded = Option (Instr × ℕ)

unfoldable pub no_operand : Instr → ℕ → Decoded
no_operand i pc = some (i, pc)

unfoldable pub byte : (ℕ → Instr) → List ℕ → ℕ → Decoded
byte f code pc = elim (get_elem? code pc) [ none ↦ none | some b ↦ some (f b, suc pc) ]

unfoldable pub two_bytes : (ℕ → ℕ → Instr) → List ℕ → ℕ → Decoded
two_bytes f code pc = elim (get_elem? code pc) [
  | none ↦ none
  | some a ↦ elim (get_elem? code (suc pc)) [ none ↦ none | some b ↦ some (f a b, suc (suc pc)) ]
]

-- `(code[pc] << 8) + code[pc + 1]`
unfoldable pub short : (ℕ → Instr) → List ℕ → ℕ → Decoded
unfolding two_bytes
short f code pc = two_bytes (λ a b. f (a * 2 ^ 8 + b)) code pc

unfoldable pub word : List ℕ → ℕ → Decoded
word code pc = elim (get_elem? code pc) [
  | none ↦ none
  | some a ↦ elim (get_elem? code (suc pc)) [
    | none ↦ none
    | some b ↦ elim (get_elem? code (suc (suc pc))) [
      | none ↦ none
      | some c ↦ elim (get_elem? code (suc (suc (suc pc)))) [
        | none ↦ none
        | some d ↦ some (
          push_int (signed 31 (((a * 2 ^ 8 + b) * 2 ^ 8 + c) * 2 ^ 8 + d)),
          suc (suc (suc (suc pc))),
        )
      ]
    ]
  ]
]

module _ (op : ℕ) (code : List ℕ) (pc : ℕ) where
  -- Numbers below 19.
  unfoldable pub decode_push : Decoded
  unfolding no_operand byte two_bytes short word
  decode_push =
      if ltb op 7
      then (if ltb op 3
          then no_operand
              (if ltb op 1 then push_bool true else if op == 1 then push_bool false else push_null)
              pc
          else if ltb op 5
          then (if op == 3
              then byte (λ b. push_int (signed 7 b)) code pc
              else short (λ u. push_int (signed 15 u)) code pc)
          else if op == 5
          then word code pc
          else short push_parsed code pc)
      else if ltb op 13
      then (if ltb op 11
          then (if op == 7 then short push_text code pc else no_operand push_undefined pc)
          else if op == 11
          then no_operand push_this pc
          else short make_array code pc)
      else if ltb op 17
      then (if op == 13 then no_operand make_object pc else short define code pc)
      else if op == 17
      then two_bytes load_slot code pc
      else short get_named code pc

  -- Numbers from 19 to 38.
  unfoldable pub decode_member : Decoded
  unfolding no_operand two_bytes short
  decode_member =
      if ltb op 27
      then (if ltb op 23
          then (if ltb op 21
              then (if op == 19 then no_operand get pc else two_bytes store_slot code pc)
              else if op == 21
              then short put_named code pc
              else no_operand put pc)
          else if ltb op 25
          then (if op == 23 then two_bytes push_slot code pc else no_operand (binary add) pc)
          else no_operand (binary (if op == 25 then sub else mul)) pc)
      else no_operand
          (if ltb op 35
            then (if ltb op 29
                then binary (if op == 27 then div else rem)
                else if op == 29
                then negate
                else increment)
            else if ltb op 37
            then binary (if op == 35 then loose_eq else loose_ne)
            else binary (if op == 37 then strict_eq else strict_ne))
          pc

  -- Numbers from 39 to 56.
  unfoldable pub decode_operator : Decoded
  unfolding no_operand two_bytes short
  decode_operator =
      if ltb op 47
      then no_operand
          (binary (
            if ltb op 43
            then (if ltb op 41 then less else if op == 41 then greater else greater_eq)
            else if ltb op 45
            then (if op == 43 then shift_left else shift_right)
            else if op == 45
            then shift_right_zero
            else bits_and))
          pc
      else if ltb op 52
      then (if ltb op 50
          then no_operand (binary (if op == 47 then bits_or else bits_xor)) pc
          else if op == 50
          then no_operand not_value pc
          else short and_jump code pc)
      else if ltb op 54
      then (if op == 52 then short or_jump code pc else no_operand assign pc)
      else no_operand (binary (if op == 54 then member_of else instance_of)) pc

  -- Numbers from 57 on.
  unfoldable pub decode_control : Decoded
  unfolding no_operand byte two_bytes short
  decode_control =
      if ltb op 66
      then (if ltb op 61
          then (if ltb op 59
              then no_operand (if op == 57 then remove else type_of) pc
              else if op == 59
              then byte make_closure code pc
              else byte make_named code pc)
          else if ltb op 64
          then (if op == 61 then short end_try code pc else short begin_try code pc)
          else no_operand (if op == 64 then throw_value else finish) pc)
      else if ltb op 71
      then (if ltb op 68
          then (if op == 66 then no_operand return_value pc else byte call code pc)
          else if op == 68
          then byte construct code pc
          else short jump code pc)
      else if ltb op 73
      then (if op == 71 then short jump_unless code pc else short jump_case code pc)
      else no_operand (if op == 73 then pop_value else duplicate) pc

  -- The first tests of the tree.
  unfoldable pub decode_at : Decoded
  unfolding decode_push decode_member decode_operator decode_control
  decode_at =
      if ltb op 39
      then (if ltb op 19 then decode_push else decode_member)
      else if ltb op 57
      then decode_operator
      else decode_control

-- The instruction at `pc`, and the place behind it.
unfoldable pub decode : List ℕ → ℕ → Decoded
unfolding decode_at
decode code pc = elim (get_elem? code pc) [ none ↦ none | some op ↦ decode_at op code (suc pc) ]
