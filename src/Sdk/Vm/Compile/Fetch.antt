-- ===== src/Sdk/Vm/Compile/Fetch.antt =====
-- Reading instructions from code that holds them.
use douyin_live.Prelude.{
  ℕ, suc, ◌+◌, ◌*◌, ◌/◌, ◌%◌, ◌^◌, ◌≡◌, refl, ◌∙◌, ap, List, [], ◌∷◌, ◌++◌, Option, some, arith,
  length, get_elem?,
}
use douyin_live.Sdk.Vm.Loader.{Program}
use douyin_live.Sdk.Vm.Decode.{Instr, Binary, binary, decode, decode_at, two_bytes, short, add}
use douyin_live.Sdk.Vm.Machine.{Host, State}
use douyin_live.Sdk.Vm.Exec.{step, exec}
use douyin_live.Sdk.Vm.Compile.{binary_byte}

-- The bytes stand in the code from a place on.
abbrev pub Holds : List ℕ → ℕ → List ℕ → Type 0
Holds code pc [] = Unit
Holds code pc (b ∷ bytes) = (get_elem? code pc ≡ some b) × Holds code (suc pc) bytes

pub Holds-append :
    (code : List ℕ) (pc : ℕ) (xs ys : List ℕ)
    → Holds code pc (xs ++ ys)
    → Holds code pc xs × Holds code (pc + length xs) ys
Holds-append code pc [] ys h = let e : pc + 0 ≡ pc = omega arith in (tt, rw e h)
Holds-append code pc (x ∷ xs) ys (hx, h) =
    let (front, back) = Holds-append code (suc pc) xs ys h in
    let e : pc + suc (length xs) ≡ suc pc + length xs = omega arith in ((hx, front), rw e back)

pub decode_binary :
    (op : Binary) (code : List ℕ) (pc : ℕ)
    → get_elem? code pc ≡ some (binary_byte op)
    → decode code pc ≡ some (binary op, suc pc)
unfolding decode binary_byte
decode_binary add code pc h = rw (h, decode) refl
decode_binary _ code pc h = rw (h, decode) refl

module _ (code : List ℕ) (pc : ℕ) where
  pub fetch :
      (op : ℕ) (r : Option (Instr × ℕ))
      → get_elem? code pc ≡ some op
      → decode_at op code (suc pc) ≡ r
      → decode code pc ≡ r
  unfolding decode
  fetch op r h e = rw (h, decode) e

  pub two_bytes_lem :
      (f : ℕ → ℕ → Instr) (a b : ℕ)
      → Holds code pc (a ∷ b ∷ [])
      → two_bytes f code pc ≡ some (f a b, suc (suc pc))
  unfolding two_bytes
  two_bytes_lem f a b (ha, (hb, h)) = rw (ha, hb, two_bytes) refl

  -- A word of 16 bits is read back from its two bytes.
  pub short_lem :
      (f : ℕ → Instr) (n : ℕ)
      → Holds code pc (n / 2 ^ 8 ∷ n % 2 ^ 8 ∷ [])
      → short f code pc ≡ some (f n, suc (suc pc))
  unfolding short
  short_lem f n h =
      let whole : n / 2 ^ 8 * 2 ^ 8 + n % 2 ^ 8 ≡ n = omega arith in
      two_bytes_lem (λ a b. f (a * 2 ^ 8 + b)) (n / 2 ^ 8) (n % 2 ^ 8) h
      ∙ (ap (λ (m : ℕ). some (f m, suc (suc pc))) whole)

module _ {N W : Type 0} (host : Host N W) (program : Program) (s : State N W) where
  pub step_lem :
      (i : Instr) (pc : ℕ)
      → decode program.code s.pc ≡ some (i, pc)
      → step host program s ≡ exec host program i (record s { pc = pc })
  unfolding step
  step_lem i pc h = rw (h, step) refl
