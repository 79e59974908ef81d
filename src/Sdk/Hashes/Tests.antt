-- ===== src/Sdk/Hashes/Tests.antt =====
-- Hashes of texts, and the theorems at concrete ones.
use douyin_live.Prelude.{
  ℕ, ◌+◌, ◌*◌, ◌%◌, ◌^◌, ◌≡◌, refl, true, false, [], ◌∷◌, none, some, inl, inr, leb, length, arith,
}
use douyin_live.Sdk.Text.{Text, codes}
use douyin_live.Sdk.Hashes.{
  hash_step, hash_units, hash_points, hash_xor, stir, decimal_from, decimal, has_check_digits,
  add_check_digits, client_id, id_pattern, random_id,
}
use douyin_live.Sdk.Hashes.Polynomial.{power, polynomial, hash_units-polynomial}
use douyin_live.Sdk.Hashes.Points.{utf16, hash_points-utf16}
use douyin_live.Sdk.Hashes.Digits.{
  has_check_digits-add_check_digits, client_id_stable, FillsAll, random_id-FillsAll,
}

hash_abc : hash_units 0 (codes "abc") ≡ 807794786
unfolding hash_units hash_step
hash_abc = refl

xor_ab : hash_xor 1 (codes "ab") ≡ 795334846
unfolding hash_xor
xor_ab = refl

stir_twice : stir 2 (codes "data:") 7 ≡ 65440077
unfolding stir hash_step
stir_twice = refl

decimal_sample : decimal 4096 ≡ codes "4096"
unfolding decimal decimal_from
decimal_sample = refl

hash_units-polynomial_run :
    hash_units 5 (codes "abc") ≡ (5 * power (codes "abc") + polynomial (codes "abc")) % 2 ^ 32
hash_units-polynomial_run = hash_units-polynomial 5 (codes "abc") (omega arith)

-- One point of each kind.
hash_points-utf16_example :
    hash_points 0 (utf16 (0x61 ∷ 0x1f600 ∷ [])) ≡ hash_units 0 (0x61 ∷ 0x1f600 ∷ [])
hash_points-utf16_example =
    hash_points-utf16 0 (0x61 ∷ 0x1f600 ∷ [])
      ((omega arith, inl (omega arith)), ((omega arith, inr (omega arith)), tt))

abbrev draws : ℕ → ℕ
draws i = (i * 5 + 3) % 16

abbrev sample_id : Text
sample_id = codes "38d27c16b05a4f494e38d27c16b05af4"

random_sample : random_id draws ≡ codes "38d27c16b05a4f49a38d27c16b05af49"
unfolding random_id
random_sample = refl

random_id-FillsAll_run : FillsAll id_pattern (random_id draws) × (length (random_id draws) ≡ 32)
random_id-FillsAll_run = random_id-FillsAll draws (λ k. omega arith)

has_check_digits-add_check_digits_run :
    has_check_digits (add_check_digits sample_id) ≡ leb 10 (hash_units 0 sample_id)
has_check_digits-add_check_digits_run = has_check_digits-add_check_digits sample_id refl

client_id_stable_run :
    (has_check_digits (client_id none sample_id).0 ≡ true)
    × ((later : Text)
        → client_id (some (client_id none sample_id).0) later
          ≡ ((client_id none sample_id).0, false))
unfolding hash_units hash_step
client_id_stable_run = client_id_stable none sample_id refl (omega arith)
