-- ===== src/Sdk/Hashes/Points.antt =====
-- The hash that counts a pair of surrogates as one point.
use douyin_live.Prelude.{
  ℕ, ◌+◌, ◌-◌, ◌*◌, ◌/◌, ◌%◌, ◌^◌, ◌≤◌, ◌<◌, ◌≡◌, refl, ◌∙◌, ap, true, false, ◌&&◌, List, [], ◌∷◌,
  ◌++◌, arith, ltb, leb, ◌==◌, if◌then◌else◌, Bool-cases, inl, inr, ◌⊎◌, All, bit_and, mask_and,
  all_below, all_below_sound,
}
use douyin_live.Sdk.Text.{Text}
use douyin_live.Sdk.Hashes.{hash_step, hash_units, hash_points, starts_pair, point_of}

-- UTF-16: a point from 2 ^ 16 on is a pair.
abbrev pub units_of : ℕ → Text
units_of p =
    if ltb p (2 ^ 16)
    then p ∷ []
    else (55296 + (p - 2 ^ 16) / 2 ^ 10) ∷ (56320 + (p - 2 ^ 16) % 2 ^ 10) ∷ []

abbrev pub utf16 : List ℕ → Text
utf16 [] = []
utf16 (p ∷ points) = units_of p ++ utf16 points

-- A point that is no surrogate.
abbrev pub IsPoint : ℕ → Type 0
IsPoint p = (p < 1114112) × ((p < 55296) ⊎ (57343 < p))

high_lem : (k : ℕ) → k < 1024 → leb 55296 (55296 + k) && leb (55296 + k) 56319 ≡ true
high_lem k h = ground arith

single_lem : (p d : ℕ) → (p < 55296) ⊎ (57343 < p) → starts_pair p d ≡ false
unfolding starts_pair
single_lem p d (inl low) = ground arith
single_lem p d (inr high) = ground arith

low_lem : (k : ℕ) → k < 1024 → bit_and 64512 (56320 + k) ≡ 56320
low_lem k h =
    let checked : all_below 1024 (λ k. bit_and 64512 (56320 + k) == 56320) ≡ true =
      unfold all_below in refl in
    let passed = all_below_sound 1024 (λ k. bit_and 64512 (56320 + k) == 56320) k checked h in
    ground arith

pair_lem :
    (j k : ℕ) → j < 1024 → k < 1024 → point_of (55296 + j) (56320 + k) ≡ 65536 + j * 2 ^ 10 + k
unfolding point_of
pair_lem j k p q = ground (arith, mask_and 10 (55296 + j), mask_and 10 (56320 + k))

pair_test : (j k : ℕ) → j < 1024 → k < 1024 → starts_pair (55296 + j) (56320 + k) ≡ true
unfolding starts_pair
pair_test j k p q = let high = high_lem j p in let low = low_lem k q in rw (high, low) refl

-- A text begins with a unit that pairs with none.
hash_single :
    (h p : ℕ) (text : Text)
    → (p < 55296) ⊎ (57343 < p)
    → hash_points h (p ∷ text) ≡ hash_points (hash_step h p) text
unfolding hash_points
hash_single h p [] free = refl
hash_single h p (d ∷ text) free = rw (single_lem p d free) refl

hash_pair :
    (h j k : ℕ) (text : Text)
    → j < 1024
    → k < 1024
    → hash_points h ((55296 + j) ∷ (56320 + k) ∷ text)
      ≡ hash_points (hash_step h (65536 + j * 2 ^ 10 + k)) text
unfolding hash_points
hash_pair h j k text p q = rw (pair_test j k p q, pair_lem j k p q) refl

-- The hash of the UTF-16 form of points is the hash of the points.
pub hash_points-utf16 :
    (h : ℕ) (points : List ℕ)
    → All IsPoint points
    → hash_points h (utf16 points) ≡ hash_units h points
unfolding hash_units
hash_points-utf16 h [] all = unfold hash_points in refl
hash_points-utf16 h (p ∷ points) (one, all) = elim (Bool-cases (ltb p (2 ^ 16))) [
  | inl small ↦
      rw small (hash_single h p (utf16 points) one.1 ∙ hash_points-utf16 (hash_step h p) points all)
  | inr large ↦
      let k = p - 2 ^ 16 in
      let above : 2 ^ 16 ≤ p = ground arith in
      let whole : 65536 + k / 2 ^ 10 * 2 ^ 10 + k % 2 ^ 10 ≡ p = omega arith in
      rw large (
        hash_pair h (k / 2 ^ 10) (k % 2 ^ 10) (utf16 points) (omega arith) (omega arith)
        ∙ (ap (λ (q : ℕ). hash_points (hash_step h q) (utf16 points)) whole
            ∙ hash_points-utf16 (hash_step h p) points all))
]
