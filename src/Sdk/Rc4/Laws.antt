-- ===== src/Sdk/Rc4/Laws.antt =====
-- Laws of the cipher `_0x21db29`.
use douyin_live.Prelude.{
  ℕ, suc, ◌+◌, ◌%◌, ◌^◌, ◌<◌, ◌≡◌, refl, ap, ap₂, List, [], ◌∷◌, some, arith, length, get_or,
  bit_xor, xor_cancel, xor_lt, ◌≢◌,
}
use native.Mathlib.Nat.{mod-eq_of_lt}
use douyin_live.Sdk.Text.{Text, IsText, IsBytes, char_unit}
use douyin_live.Sdk.Rc4.{swap, crypt, sbox, rc4}
use douyin_live.Sdk.Rc4.Sbox.{IsSbox, sbox-IsSbox, swap-IsSbox}

-- One character, twice under the same key byte.
char_twice :
    (c k : ℕ) → c < 2 ^ 16 → k < 2 ^ 16 → char_unit (bit_xor (char_unit (bit_xor c k)) k) ≡ c
char_twice c k p q =
    omega (arith, ap (λ (t : ℕ). bit_xor t k) (mod-eq_of_lt (xor_lt 16 c k p q)), xor_cancel c k)

crypt_twice :
    (message : Text) (i j : ℕ) (s : List ℕ)
    → IsSbox s
    → IsText message
    → crypt (crypt message i j s) i j s ≡ message
unfolding crypt
crypt_twice [] i j s v h = refl
crypt_twice (c ∷ message) i j s v (hc, hm) =
    let i' = (i + 1) % 256 in
    let j' = (j + get_or s i' 0) % 256 in
    let s' = swap s i' j' in
    let v' : IsSbox s' = swap-IsSbox i' j' (omega arith) (omega arith) v in
    let k = get_or s' ((get_or s' i' 0 + get_or s' j' 0) % 256) 0 in
    ap₂ ◌∷◌ (char_twice c k hc (omega (arith, v'.bytes ((get_or s' i' 0 + get_or s' j' 0) % 256))))
      (crypt_twice message i' j' s' v' hm)

-- Decryption is encryption: what a key makes of a text of code units, it takes back.
pub rc4_twice :
    (key message : Text) {out : Text}
    → IsText message
    → rc4 key message ≡ some out
    → rc4 key out ≡ some message
unfolding rc4
rc4_twice [] message h e = cc
rc4_twice (k ∷ key) message {out} h e =
    let same : crypt message 0 0 (sbox (k ∷ key)) ≡ out = cc in
    rw (← same) (ap some (crypt_twice message 0 0 (sbox (k ∷ key)) (sbox-IsSbox (k ∷ key)) h))

crypt-IsBytes :
    (message : Text) (i j : ℕ) (s : List ℕ)
    → IsSbox s
    → IsBytes message
    → IsBytes (crypt message i j s)
unfolding crypt
crypt-IsBytes [] i j s v h = tt
crypt-IsBytes (c ∷ message) i j s v (hc, hm) =
    let i' = (i + 1) % 256 in
    let j' = (j + get_or s i' 0) % 256 in
    let s' = swap s i' j' in
    let v' : IsSbox s' = swap-IsSbox i' j' (omega arith) (omega arith) v in
    let at = (get_or s' i' 0 + get_or s' j' 0) % 256 in
    (
      omega (arith, xor_lt 8 c (get_or s' at 0) hc (v'.bytes at)),
      crypt-IsBytes message i' j' s' v' hm,
    )

length-crypt :
    (message : Text) (i j : ℕ) (s : List ℕ) → length (crypt message i j s) ≡ length message
unfolding crypt
length-crypt [] i j s = refl
length-crypt (c ∷ message) i j s =
    let i' = (i + 1) % 256 in
    let j' = (j + get_or s i' 0) % 256 in ap suc (length-crypt message i' j' (swap s i' j'))

-- With a key, bytes are encrypted to as many bytes.
pub rc4-IsBytes :
    (key message : Text)
    → key ≢ []
    → IsBytes message
    → (out : Text) × (rc4 key message ≡ some out) × IsBytes out × (length out ≡ length message)
unfolding rc4
rc4-IsBytes [] message ne h = absurd (ne refl)
rc4-IsBytes (k ∷ key) message ne h = (
  crypt message 0 0 (sbox (k ∷ key)),
  refl,
  crypt-IsBytes message 0 0 (sbox (k ∷ key)) (sbox-IsSbox (k ∷ key)) h,
  length-crypt message 0 0 (sbox (k ∷ key)),
)
