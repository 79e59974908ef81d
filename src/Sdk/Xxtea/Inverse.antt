-- ===== src/Sdk/Xxtea/Inverse.antt =====
-- Decryption is the inverse of encryption, on arrays of two words or more.
use douyin_live.Prelude.{
  ℕ, zero, suc, ◌+◌, ◌-◌, ◌*◌, ◌%◌, ◌^◌, ◌≤◌, ◌<◌, ◌≡◌, refl, ◌∙◌, List, some, arith, ◌==◌, length,
  get_or, true, false, all_below, all_below_sound, ltb, ltb→lt,
}
use douyin_live.Sdk.Xxtea.{delta, decrypt_pass, decrypt_passes, rounds, encrypt, decrypt}
use douyin_live.Sdk.Xxtea.Step.{IsWords, put_up-IsWords}
use douyin_live.Sdk.Xxtea.Pass.{
  pass, passes, length-pass, length-passes, encrypt_passes_lem, decrypt_pass-pass,
}

-- The sum after `k` rounds. Up to 58 rounds it is 0 at the start only.
abbrev sum_at : ℕ → ℕ
sum_at k = k * delta % 2 ^ 32

sum_at-pos_table : all_below 58 (λ k. ltb 0 (sum_at (suc k))) ≡ true
unfolding all_below
sum_at-pos_table = refl

sum_at-pos : (k : ℕ) → k < 58 → 0 < sum_at (suc k)
sum_at-pos k h =
    ltb→lt 0 (sum_at (suc k))
      (all_below_sound 58 (λ k. ltb 0 (sum_at (suc k))) k sum_at-pos_table h)

sum_at-add : (k : ℕ) → (sum_at k + delta) % 2 ^ 32 ≡ sum_at (suc k)
sum_at-add k = omega arith

sum_at-sub : (k : ℕ) → (sum_at (suc k) + 2 ^ 32 - delta) % 2 ^ 32 ≡ sum_at k
sum_at-sub k = omega arith

module _ (key : List ℕ) where
  -- One round of the loop, at a sum that is not 0.
  decrypt_passes-pass :
      (fuel k : ℕ) (v : List ℕ)
      → k < 58
      → 2 ≤ length v
      → IsWords v
      → let u = pass key (sum_at (suc k)) v in
        decrypt_passes key (suc fuel) (sum_at (suc k)) (get_or u 0 0) u
        ≡ decrypt_passes key fuel (sum_at k) (get_or v 0 0) v
  unfolding decrypt_passes
  decrypt_passes-pass fuel k v h two words =
      let u = pass key (sum_at (suc k)) v in
      let go : (sum_at (suc k) == 0) ≡ false = ground (arith, sum_at-pos k h) in
      rw (go, decrypt_pass-pass key (sum_at (suc k)) v two words, sum_at-sub k) refl

  pass-IsWords : (sum : ℕ) (v : List ℕ) → IsWords v → IsWords (pass key sum v)
  unfolding pass
  pass-IsWords sum v h = put_up-IsWords key sum (length v) (length v) v h

  -- The rounds of the decryption take back as many rounds of the encryption.
  decrypt_passes-passes :
      (q fuel k f s : ℕ) (v : List ℕ)
      → f ≡ q + fuel
      → s ≡ k + q
      → s ≤ 58
      → 2 ≤ length v
      → IsWords v
      → let u = passes key q (sum_at k) v in
        decrypt_passes key f (sum_at s) (get_or u 0 0) u
        ≡ decrypt_passes key fuel (sum_at k) (get_or v 0 0) v
  unfolding passes
  decrypt_passes-passes zero fuel k f s v ef es h two words =
      let e : f ≡ fuel = omega arith in let e' : s ≡ k = omega arith in rw (e, e') refl
  decrypt_passes-passes (suc q) fuel k f s v ef es h two words =
      let u = pass key (sum_at (suc k)) v in
      let len = length-pass key (sum_at (suc k)) v in
      rw (sum_at-add k) (
        decrypt_passes-passes q (suc fuel) (suc k) f s u (omega arith) (omega arith) h (rw len two)
          (pass-IsWords (sum_at (suc k)) v words)
        ∙ decrypt_passes-pass fuel k v (omega arith) two words)

decrypt_passes-zero :
    (key : List ℕ) (fuel y : ℕ) (v : List ℕ) → decrypt_passes key fuel 0 y v ≡ some v
unfolding decrypt_passes
decrypt_passes-zero key zero y v = refl
decrypt_passes-zero key (suc fuel) y v = refl

rounds-le : (n : ℕ) → rounds n ≤ 58
unfolding rounds
rounds-le zero = omega arith
rounds-le (suc n) = grind arith

pub length-encrypt : (v key : List ℕ) → 2 ≤ length v → length (encrypt v key) ≡ length v
unfolding encrypt
length-encrypt v key two =
    let m = length v - 1 in
    rw (encrypt_passes_lem key (rounds (length v)) 0 m v (omega arith) (omega arith))
      (length-passes key (rounds (length v)) 0 v)

module _ (key : List ℕ) where
  passes-IsWords : (q sum : ℕ) (v : List ℕ) → IsWords v → IsWords (passes key q sum v)
  unfolding passes
  passes-IsWords zero sum v h = h
  passes-IsWords (suc q) sum v h =
      let sum' = (sum + delta) % 2 ^ 32 in
      passes-IsWords q sum' (pass key sum' v) (pass-IsWords key sum' v h)

pub encrypt-IsWords : (v key : List ℕ) → 2 ≤ length v → IsWords v → IsWords (encrypt v key)
unfolding encrypt
encrypt-IsWords v key two h =
    let m = length v - 1 in
    rw (encrypt_passes_lem key (rounds (length v)) 0 m v (omega arith) (omega arith))
      (passes-IsWords key (rounds (length v)) 0 v h)

-- With any key, decryption returns, and gives back the words that were encrypted, for an array of
-- two words or more.
pub decrypt-encrypt :
    (v key : List ℕ) → 2 ≤ length v → IsWords v → decrypt (encrypt v key) key ≡ some v
unfolding decrypt
decrypt-encrypt v key two words =
    let n = length v in
    let r = rounds n in
    let m = n - 1 in
    let small : r ≤ 58 = rounds-le n in
    let len = length-encrypt v key two in
    let same : encrypt v key ≡ passes key r (sum_at 0) v =
      unfold encrypt in encrypt_passes_lem key r 0 m v (omega arith) (omega arith) in
    rw (len, same)
      (decrypt_passes-passes key r (58 - r) 0 58 r v (omega arith) (omega arith) small two words
        ∙ decrypt_passes-zero key (58 - r) (get_or v 0 0) v)

-- The loop of the decryption ends within its fuel on every array: the sum counts down to 0.
decrypt_passes_total :
    (key : List ℕ) (k fuel y : ℕ) (v : List ℕ)
    → k ≤ fuel
    → fuel ≤ 58
    → (u : List ℕ) × (decrypt_passes key fuel (sum_at k) y v ≡ some u)
unfolding decrypt_passes
decrypt_passes_total key zero fuel y v h h' = (v, decrypt_passes-zero key fuel y v)
decrypt_passes_total key (suc k) zero y v h h' = absurd (omega arith)
decrypt_passes_total key (suc k) (suc fuel) y v h h' =
    let r = decrypt_pass key (sum_at (suc k)) y v in
    let go : (sum_at (suc k) == 0) ≡ false = ground (arith, sum_at-pos k (omega arith)) in
    let (u, e) = decrypt_passes_total key k fuel r.0 r.1 (omega arith) (omega arith) in
    (u, rw (go, sum_at-sub k) e)

pub decrypt_total : (v key : List ℕ) → (u : List ℕ) × (decrypt v key ≡ some u)
unfolding decrypt
decrypt_total v key =
    decrypt_passes_total key (rounds (length v)) 58 (get_or v 0 0) v (rounds-le (length v))
      (omega arith)
