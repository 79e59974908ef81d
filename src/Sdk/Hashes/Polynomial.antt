-- ===== src/Sdk/Hashes/Polynomial.antt =====
-- The hash of units in closed form.
use douyin_live.Prelude.{ℕ, ◌+◌, ◌*◌, ◌/◌, ◌%◌, ◌^◌, ◌<◌, ◌≡◌, refl, ◌∙◌, ap, [], ◌∷◌, ◌++◌, arith}
use douyin_live.Sdk.Text.{Text}
use douyin_live.Sdk.Hashes.{hash_step, hash_units}

-- 65599 to the power of the length.
abbrev pub power : Text → ℕ
power [] = 1
power (c ∷ text) = 65599 * power text

-- The units as the coefficients of a polynomial in 65599, the first unit at the highest power.
abbrev pub polynomial : Text → ℕ
polynomial [] = 0
polynomial (c ∷ text) = c * power text + polynomial text

mod_scaled : (x w s : ℕ) → (x % 2 ^ 32 * w + s) % 2 ^ 32 ≡ (x * w + s) % 2 ^ 32
mod_scaled x w s =
    let whole : x ≡ x / 2 ^ 32 * 2 ^ 32 + x % 2 ^ 32 = omega arith in
    omega (arith, ap (λ (n : ℕ). n * w) whole)

-- From a seed of 32 bits, the hash is the seed times a power plus the polynomial of the units,
-- modulo 2 ^ 32.
pub hash_units-polynomial :
    (h : ℕ) (text : Text)
    → h < 2 ^ 32
    → hash_units h text ≡ (h * power text + polynomial text) % 2 ^ 32
unfolding hash_units hash_step
hash_units-polynomial h [] small = omega arith
hash_units-polynomial h (c ∷ text) small =
    hash_units-polynomial (hash_step h c) text (omega arith)
    ∙ (mod_scaled (65599 * h + c) (power text) (polynomial text)
        ∙ ap (λ (n : ℕ). n % 2 ^ 32) (omega arith))

-- A text in two parts is hashed part by part.
pub hash_units-append : (h : ℕ) (s t : Text) → hash_units h (s ++ t) ≡ hash_units (hash_units h s) t
unfolding hash_units
hash_units-append h [] t = refl
hash_units-append h (c ∷ s) t = hash_units-append (hash_step h c) s t
