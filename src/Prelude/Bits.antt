-- ===== src/Prelude/Bits.antt =====
-- Laws of the native `bit_and`, `bit_or` and `bit_xor` at variables.
use Prim.Native.Nat.{
  ℕ, zero, suc, ◌+◌, ◌-◌, ◌*◌, ◌/◌, ◌%◌, ◌^◌, ◌≤◌, ◌<◌, min, max, bit_and, bit_or, bit_xor, digits,
  bit_and-bitwise, bit_or-bitwise, bit_xor-bitwise, differ,
}
use native.Mathlib.Nat.{
  pow-suc, pow-succ', one-le-pow, mod-lt, div-add-mod', div-div-eq-div-mul, div-one, mul-one,
}
use mathlib.Core.Path.{◌≡◌, refl, sym, ap, ap₂, ◌∙◌}
use native.Mathlib.Omega.{arith}

-- The native operations are recursions on the digits of the first number, with that number as the
-- fuel. More fuel than the number changes nothing.
module _ (z : ℕ → ℕ) (f : ℕ → ℕ → ℕ) where
  no_digits : (n b : ℕ) → digits z f n 0 b ≡ z b
  no_digits zero b = refl
  no_digits (suc n) b = refl

  digits_more : (m n a b : ℕ) → n ≤ m → a ≤ n → digits z f m a b ≡ digits z f n a b
  digits_more m n zero b k h = no_digits m b ∙ sym (no_digits n b)
  digits_more m zero (suc a) b k h = absurd (omega arith)
  digits_more zero (suc n) (suc a) b k h = absurd (omega arith)
  digits_more (suc m) (suc n) (suc a) b k h =
      ap (λ t. t * 2 + f (suc a % 2) (b % 2))
        (digits_more m n (suc a / 2) (b / 2) (omega arith) (omega arith))

  -- The lowest digit of an operation that is such a recursion.
  lowest_digit :
      (op : ℕ → ℕ → ℕ)
      → ((a b : ℕ) → op a b ≡ digits z f a a b)
      → (a b : ℕ) → op (suc a) b ≡ op (suc a / 2) (b / 2) * 2 + f (suc a % 2) (b % 2)
  lowest_digit op meaning a b =
      let h = suc a / 2 in
      let less : digits z f a h (b / 2) ≡ op h (b / 2) =
        digits_more a h h (b / 2) (omega arith) (omega arith) ∙ sym (meaning h (b / 2)) in
      meaning (suc a) b ∙ ap (λ t. t * 2 + f (suc a % 2) (b % 2)) less

pub bit_and_digit : (a b : ℕ) → bit_and a b ≡ bit_and (a / 2) (b / 2) * 2 + min (a % 2) (b % 2)
bit_and_digit zero b = omega (arith, bit_and-bitwise 0 b, bit_and-bitwise 0 (b / 2))
bit_and_digit (suc a) b = lowest_digit (λ b. zero) min bit_and bit_and-bitwise a b

pub bit_or_digit : (a b : ℕ) → bit_or a b ≡ bit_or (a / 2) (b / 2) * 2 + max (a % 2) (b % 2)
bit_or_digit zero b = omega (arith, bit_or-bitwise 0 b, bit_or-bitwise 0 (b / 2))
bit_or_digit (suc a) b = lowest_digit (λ b. b) max bit_or bit_or-bitwise a b

differ_bits : (x y : ℕ) → x < 2 → y < 2 → differ x y ≡ (x + y) % 2
differ_bits zero y p q = omega arith
differ_bits (suc zero) zero p q = refl
differ_bits (suc zero) (suc zero) p q = refl
differ_bits (suc zero) (suc (suc y)) p q = absurd (omega arith)
differ_bits (suc (suc x)) y p q = absurd (omega arith)

pub bit_xor_digit : (a b : ℕ) → bit_xor a b ≡ bit_xor (a / 2) (b / 2) * 2 + (a % 2 + b % 2) % 2
bit_xor_digit zero b = omega (arith, bit_xor-bitwise 0 b, bit_xor-bitwise 0 (b / 2))
bit_xor_digit (suc a) b = omega (
  arith,
  lowest_digit (λ b. b) differ bit_xor bit_xor-bitwise a b,
  differ_bits (suc a % 2) (b % 2) (omega arith) (omega arith),
)

-- Laws by induction on a bound of both numbers.
xor_cancel_below : (n a b : ℕ) → a ≤ n → b ≤ n → bit_xor (bit_xor a b) b ≡ a
xor_cancel_below zero zero zero p q = refl
xor_cancel_below zero zero (suc b) p q = absurd (omega arith)
xor_cancel_below zero (suc a) b p q = absurd (omega arith)
xor_cancel_below (suc n) a b p q =
    let half : bit_xor a b / 2 ≡ bit_xor (a / 2) (b / 2) = omega (arith, bit_xor_digit a b) in
    let ih : bit_xor (bit_xor (a / 2) (b / 2)) (b / 2) ≡ a / 2 =
      xor_cancel_below n (a / 2) (b / 2) (omega arith) (omega arith) in
    let ih' : bit_xor (bit_xor a b / 2) (b / 2) ≡ a / 2 = rw half ih in
    omega (arith, bit_xor_digit (bit_xor a b) b, bit_xor_digit a b, ih')

-- A second exclusive or with the same number undoes the first.
pub xor_cancel : (a b : ℕ) → bit_xor (bit_xor a b) b ≡ a
xor_cancel a b = xor_cancel_below (a + b) a b (omega arith) (omega arith)

xor_comm_below : (n a b : ℕ) → a ≤ n → b ≤ n → bit_xor a b ≡ bit_xor b a
xor_comm_below zero zero zero p q = refl
xor_comm_below zero zero (suc b) p q = absurd (omega arith)
xor_comm_below zero (suc a) b p q = absurd (omega arith)
xor_comm_below (suc n) a b p q = omega (
  arith,
  bit_xor_digit a b,
  bit_xor_digit b a,
  xor_comm_below n (a / 2) (b / 2) (omega arith) (omega arith),
)

pub xor_comm : (a b : ℕ) → bit_xor a b ≡ bit_xor b a
xor_comm a b = xor_comm_below (a + b) a b (omega arith) (omega arith)

pub xor_lt : (k a b : ℕ) → a < 2 ^ k → b < 2 ^ k → bit_xor a b < 2 ^ k
xor_lt zero a b p q = ground (arith, bit_xor-bitwise 0 0)
xor_lt (suc k) a b p q = omega (
  arith,
  bit_xor_digit a b,
  pow-suc 2 k,
  xor_lt k (a / 2) (b / 2) (omega (arith, pow-suc 2 k)) (omega (arith, pow-suc 2 k)),
)

and_comm_below : (n a b : ℕ) → a ≤ n → b ≤ n → bit_and a b ≡ bit_and b a
and_comm_below zero zero zero p q = refl
and_comm_below zero zero (suc b) p q = absurd (omega arith)
and_comm_below zero (suc a) b p q = absurd (omega arith)
and_comm_below (suc n) a b p q = omega (
  arith,
  bit_and_digit a b,
  bit_and_digit b a,
  and_comm_below n (a / 2) (b / 2) (omega arith) (omega arith),
)

pub and_comm : (a b : ℕ) → bit_and a b ≡ bit_and b a
and_comm a b = and_comm_below (a + b) a b (omega arith) (omega arith)

zero_and : (b : ℕ) → bit_and 0 b ≡ 0
zero_and b = bit_and-bitwise 0 b

two_pow_mul : (q k : ℕ) → q * 2 ^ suc k ≡ 2 * (q * 2 ^ k)
two_pow_mul q k = omega (arith, ap (λ (t : ℕ). q * t) (pow-suc 2 k))

and_low : (k q r : ℕ) → r < 2 ^ k → bit_and (q * 2 ^ k + r) (2 ^ k - 1) ≡ r
and_low zero q r p = omega (arith, and_comm (q * 1 + r) 0, zero_and (q * 1 + r))
and_low (suc k) q r p =
    let e : (q * 2 ^ suc k + r) / 2 ≡ q * 2 ^ k + r / 2 = omega (arith, two_pow_mul q k) in
    let f : (2 ^ suc k - 1) / 2 ≡ 2 ^ k - 1 =
      omega (arith, pow-suc 2 k, one-le-pow k 2 (omega arith)) in
    let odd : (2 ^ suc k - 1) % 2 ≡ 1 = omega (arith, pow-suc 2 k, one-le-pow k 2 (omega arith)) in
    let ih : bit_and (q * 2 ^ k + r / 2) (2 ^ k - 1) ≡ r / 2 =
      and_low k q (r / 2) (omega (arith, pow-suc 2 k)) in
    let halves : bit_and ((q * 2 ^ suc k + r) / 2) ((2 ^ suc k - 1) / 2) ≡ r / 2 = rw (e, f) ih in
    omega (arith, bit_and_digit (q * 2 ^ suc k + r) (2 ^ suc k - 1), two_pow_mul q k, halves, odd)

-- A mask of `k` low bits is the remainder by `2 ^ k`.
pub and_mask : (k a : ℕ) → bit_and a (2 ^ k - 1) ≡ a % 2 ^ k
and_mask k a =
    let pos : 0 < 2 ^ k = one-le-pow k 2 (omega arith) in
    let low : bit_and (a / 2 ^ k * 2 ^ k + a % 2 ^ k) (2 ^ k - 1) ≡ a % 2 ^ k =
      and_low k (a / 2 ^ k) (a % 2 ^ k) (mod-lt a pos) in
    rw div-add-mod' at low

or_comm_below : (n a b : ℕ) → a ≤ n → b ≤ n → bit_or a b ≡ bit_or b a
or_comm_below zero zero zero p q = refl
or_comm_below zero zero (suc b) p q = absurd (omega arith)
or_comm_below zero (suc a) b p q = absurd (omega arith)
or_comm_below (suc n) a b p q = omega (
  arith,
  bit_or_digit a b,
  bit_or_digit b a,
  or_comm_below n (a / 2) (b / 2) (omega arith) (omega arith),
)

pub or_comm : (a b : ℕ) → bit_or a b ≡ bit_or b a
or_comm a b = or_comm_below (a + b) a b (omega arith) (omega arith)

or_zero : (a : ℕ) → bit_or a 0 ≡ a
or_zero a = or_comm a 0 ∙ bit_or-bitwise 0 a

-- Disjoint fields are joined by a sum.
pub or_fields : (k q r : ℕ) → r < 2 ^ k → bit_or (q * 2 ^ k) r ≡ q * 2 ^ k + r
or_fields zero q r p = ground (arith, or_zero q)
or_fields (suc k) q r p =
    let e : q * 2 ^ suc k / 2 ≡ q * 2 ^ k = omega (arith, two_pow_mul q k) in
    let ih : bit_or (q * 2 ^ k) (r / 2) ≡ q * 2 ^ k + r / 2 =
      or_fields k q (r / 2) (omega (arith, pow-suc 2 k)) in
    let halves : bit_or (q * 2 ^ suc k / 2) (r / 2) ≡ q * 2 ^ k + r / 2 = rw e ih in
    omega (arith, bit_or_digit (q * 2 ^ suc k) r, two_pow_mul q k, halves)

and_half : (a b : ℕ) → bit_and a b / 2 ≡ bit_and (a / 2) (b / 2)
and_half a b = omega (arith, bit_and_digit a b)

div_two_pow_suc : (a k : ℕ) → a / 2 ^ suc k ≡ a / 2 / 2 ^ k
div_two_pow_suc a k = rw pow-succ' (sym (div-div-eq-div-mul a 2 (2 ^ k)))

-- A shift to the right goes through `&`.
pub and_shift : (k a b : ℕ) → bit_and a b / 2 ^ k ≡ bit_and (a / 2 ^ k) (b / 2 ^ k)
and_shift zero a b = simp div-one
and_shift (suc k) a b =
    div_two_pow_suc (bit_and a b) k
    ∙ (ap (λ (t : ℕ). t / 2 ^ k) (and_half a b)
        ∙ (and_shift k (a / 2) (b / 2)
            ∙ sym (ap₂ bit_and (div_two_pow_suc a k) (div_two_pow_suc b k))))

-- A shift to the left goes through `&`.
pub and_scaled : (k a b : ℕ) → bit_and (a * 2 ^ k) (b * 2 ^ k) ≡ bit_and a b * 2 ^ k
and_scaled zero a b = simp mul-one
and_scaled (suc k) a b =
    let e : a * 2 ^ suc k / 2 ≡ a * 2 ^ k = omega (arith, two_pow_mul a k) in
    let f : b * 2 ^ suc k / 2 ≡ b * 2 ^ k = omega (arith, two_pow_mul b k) in
    let ih : bit_and (a * 2 ^ k) (b * 2 ^ k) ≡ bit_and a b * 2 ^ k = and_scaled k a b in
    let halves : bit_and (a * 2 ^ suc k / 2) (b * 2 ^ suc k / 2) ≡ bit_and a b * 2 ^ k =
      rw (e, f) ih in
    omega (
      arith,
      bit_and_digit (a * 2 ^ suc k) (b * 2 ^ suc k),
      two_pow_mul a k,
      two_pow_mul b k,
      two_pow_mul (bit_and a b) k,
      halves,
    )

-- The mask first, as the sources write it.
pub mask_and : (k a : ℕ) → bit_and (2 ^ k - 1) a ≡ a % 2 ^ k
mask_and k a = and_comm (2 ^ k - 1) a ∙ and_mask k a
