-- ===== src/Sdk/Rc4/Sbox.antt =====
-- The array of `_0x21db29` stays a permutation of the bytes.
use douyin_live.Prelude.{
  ℕ, zero, suc, ◌+◌, ◌%◌, ◌≤◌, ◌<◌, ◌≡◌, refl, ◌∙◌, List, [], ◌∷◌, arith, length, get_or, set,
  length-set, ◌==◌, if◌then◌else◌,
}
use douyin_live.Sdk.Rc4.{identity_from, swap, schedule, sbox}
use douyin_live.Sdk.Text.{Text}

-- 256 entries, all of them bytes, no byte twice.
pub record IsSbox (s : List ℕ) : Type 0 where
  pub full : length s ≡ 256
  pub bytes : (i : ℕ) → get_or s i 0 < 256
  pub distinct : (i j : ℕ) → i < 256 → j < 256 → get_or s i 0 ≡ get_or s j 0 → i ≡ j

length-identity_from : (n i : ℕ) → length (identity_from n i) ≡ n
unfolding identity_from
length-identity_from zero i = refl
length-identity_from (suc n) i = omega (arith, length-identity_from n (i + 1))

pub get_or-identity_from : (n i k : ℕ) → k < n → get_or (identity_from n i) k 0 ≡ i + k
unfolding identity_from
get_or-identity_from zero i k h = absurd (omega arith)
get_or-identity_from (suc n) i zero h = omega arith
get_or-identity_from (suc n) i (suc k) h =
    omega (arith, get_or-identity_from n (i + 1) k (omega arith))

identity_from-lt : (n i k m : ℕ) → i + n ≤ m → 0 < m → get_or (identity_from n i) k 0 < m
unfolding identity_from
identity_from-lt zero i k m h pos = pos
identity_from-lt (suc n) i zero m h pos = omega arith
identity_from-lt (suc n) i (suc k) m h pos = identity_from-lt n (i + 1) k m (omega arith) pos

get_or-set :
    (s : List ℕ) (i k v : ℕ)
    → i < length s
    → get_or (set s i v) k 0 ≡ (if i == k then v else get_or s k 0)
get_or-set [] i k v h = absurd (omega arith)
get_or-set (x ∷ s) zero zero v h = refl
get_or-set (x ∷ s) zero (suc k) v h = ground arith
get_or-set (x ∷ s) (suc i) zero v h = ground arith
get_or-set (x ∷ s) (suc i) (suc k) v h = ground (arith, get_or-set s i k v (omega arith))

-- What a swap leaves at each index.
pub get_or-swap :
    (s : List ℕ) (i j k : ℕ)
    → i < length s
    → j < length s
    → get_or (swap s i j) k 0
      ≡ (if j == k then get_or s i 0 else if i == k then get_or s j 0 else get_or s k 0)
unfolding swap
get_or-swap s i j k p q =
    let v = get_or s j 0 in
    ground
      (arith, get_or-set s i k v p, get_or-set (set s i v) j k (get_or s i 0), length-set s i v)

pub length-swap : (s : List ℕ) (i j : ℕ) → length (swap s i j) ≡ length s
unfolding swap
length-swap s i j =
    length-set (set s i (get_or s j 0)) j (get_or s i 0) ∙ length-set s i (get_or s j 0)

swap-distinct :
    {s : List ℕ} {i j : ℕ}
    → i < 256
    → j < 256
    → IsSbox s
    → (a b : ℕ) → a < 256
    → b < 256
    → get_or (swap s i j) a 0 ≡ get_or (swap s i j) b 0
    → a ≡ b
swap-distinct {s} {i} {j} p q v a b pa pb e =
    let m = v.full in
    ground (
      arith,
      get_or-swap s i j a,
      get_or-swap s i j b,
      v.distinct i j,
      v.distinct i b,
      v.distinct j b,
      v.distinct a b,
      v.distinct a i,
      v.distinct a j,
      v.distinct j i,
    )

pub swap-IsSbox : {s : List ℕ} (i j : ℕ) → i < 256 → j < 256 → IsSbox s → IsSbox (swap s i j)
swap-IsSbox {s} i j p q v = record {
  full = length-swap s i j ∙ v.full;
  bytes = λ k. ground (arith, get_or-swap s i j k, v.full, v.bytes i, v.bytes j, v.bytes k);
  distinct = swap-distinct p q v;
}

schedule-IsSbox :
    (key : Text) (left i j : ℕ) (s : List ℕ)
    → i + left ≡ 256
    → IsSbox s
    → IsSbox (schedule key left i j s)
unfolding schedule
schedule-IsSbox key zero i j s e v = v
schedule-IsSbox key (suc left) i j s e v =
    let j' = (j + get_or s i 0 + get_or key (i % length key) 0) % 256 in
    schedule-IsSbox key left (i + 1) j' (swap s i j') (omega arith)
      (swap-IsSbox i j' (omega arith) (omega arith) v)

pub identity-IsSbox : IsSbox (identity_from 256 0)
identity-IsSbox = record {
  full = length-identity_from 256 0;
  bytes = λ i. identity_from-lt 256 0 i 256 (omega arith) (omega arith);
  distinct =
      λ i j p q e. omega (arith, get_or-identity_from 256 0 i p, get_or-identity_from 256 0 j q);
}

-- For every key the schedule leaves a permutation of the 256 bytes.
pub sbox-IsSbox : (key : Text) → IsSbox (sbox key)
unfolding sbox
sbox-IsSbox key = schedule-IsSbox key 256 0 0 (identity_from 256 0) refl identity-IsSbox
