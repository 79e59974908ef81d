-- ===== src/Sdk/Xxtea/Step.antt =====
-- The passes of the block cipher, word by word: one word is changed by a step that reads its two
-- neighbours in the ring, and a step can be taken back while the neighbours are as they were.
use douyin_live.Prelude.{
  ℕ, zero, suc, ◌+◌, ◌-◌, ◌*◌, ◌/◌, ◌%◌, ◌^◌, ◌≤◌, ◌<◌, ◌≡◌, refl, ◌∙◌, List, arith, ◌==◌,
  if◌then◌else◌, length, get_or, set, All, bit_xor, xor_lt, length-set, get_or-set_self,
  get_or-set_ne, set-set_self, set-get_or, All-set, All-get_or, ◌≢◌,
}
use douyin_live.Sdk.Xxtea.{mx, phase}

abbrev pub IsWords : List ℕ → Type 0
IsWords v = All (λ w. w < 2 ^ 32) v

-- The neighbours of a place in a ring of `n`.
unfoldable pub after : ℕ → ℕ → ℕ
after n p = if p + 1 == n then 0 else p + 1

unfoldable pub before : ℕ → ℕ → ℕ
before n zero = n - 1
before n (suc p) = p

pub mx-lt : (sum y z p e : ℕ) (k : List ℕ) → mx sum y z p e k < 2 ^ 32
unfolding mx
mx-lt sum y z p e k =
    xor_lt 32
      ((bit_xor (z / 2 ^ 5) (y * 2 ^ 2 % 2 ^ 32) + bit_xor (y / 2 ^ 3) (z * 2 ^ 4 % 2 ^ 32))
        % 2 ^ 32)
      _ (omega arith) (omega arith)

module _ (key : List ℕ) (sum n : ℕ) where
  unfoldable pub mask : ℕ → List ℕ → ℕ
  mask p v = mx sum (get_or v (after n p) 0) (get_or v (before n p) 0) p (phase sum) key

  unfoldable pub put : ℕ → List ℕ → List ℕ
  put p v = set v p ((get_or v p 0 + mask p v) % 2 ^ 32)

  unfoldable pub take_back : ℕ → List ℕ → List ℕ
  take_back p v = set v p ((get_or v p 0 + 2 ^ 32 - mask p v) % 2 ^ 32)

  mask-lt : (p : ℕ) (v : List ℕ) → mask p v < 2 ^ 32
  unfolding mask
  mask-lt p v = mx-lt sum (get_or v (after n p) 0) (get_or v (before n p) 0) p (phase sum) key

  mask-set : (p w : ℕ) (v : List ℕ) → 2 ≤ n → p < n → mask p (set v p w) ≡ mask p v
  unfolding mask
  mask-set p w v two h =
      let a : p ≢ after n p = unfold after in ground arith in
      let b : p ≢ before n p = before-ne p two in
      rw (get_or-set_ne v p (after n p) w 0 a, get_or-set_ne v p (before n p) w 0 b) refl
    where
      before-ne : (p : ℕ) → 2 ≤ n → p ≢ before n p
      before-ne zero two = unfold before in omega arith
      before-ne (suc p) two = unfold before in omega arith

  pub length-put : (p : ℕ) (v : List ℕ) → length (put p v) ≡ length v
  unfolding put
  length-put p v = length-set v p _

  pub put-IsWords : (p : ℕ) (v : List ℕ) → IsWords v → IsWords (put p v)
  unfolding put
  put-IsWords p v h = All-set (λ w. w < 2 ^ 32) v p _ h (omega arith)

  -- The inverse of a step.
  pub take_back-put :
      (p : ℕ) (v : List ℕ) → 2 ≤ n → p < n → length v ≡ n → IsWords v → take_back p (put p v) ≡ v
  unfolding take_back put
  take_back-put p v two h len words =
      let x = get_or v p 0 in
      let m = mask p v in
      let w = (x + m) % 2 ^ 32 in
      let small : x < 2 ^ 32 = All-get_or (λ w. w < 2 ^ 32) v p 0 words (omega arith) in
      let bound : m < 2 ^ 32 = mask-lt p v in
      let back : (w + 2 ^ 32 - m) % 2 ^ 32 ≡ x = omega arith in
      rw (mask-set p w v two h, get_or-set_self v p w 0 (omega arith), set-set_self v p w, back)
        (set-get_or v p 0)

  -- The steps of one pass, up and down.
  unfoldable pub put_up : ℕ → List ℕ → List ℕ
  put_up zero v = v
  put_up (suc p) v = put p (put_up p v)

  unfoldable pub take_down : ℕ → List ℕ → List ℕ
  take_down zero v = v
  take_down (suc p) v = take_down p (take_back p v)

  pub length-put_up : (p : ℕ) (v : List ℕ) → length (put_up p v) ≡ length v
  unfolding put_up
  length-put_up zero v = refl
  length-put_up (suc p) v = length-put p (put_up p v) ∙ length-put_up p v

  pub put_up-IsWords : (p : ℕ) (v : List ℕ) → IsWords v → IsWords (put_up p v)
  unfolding put_up
  put_up-IsWords zero v h = h
  put_up-IsWords (suc p) v h = put-IsWords p (put_up p v) (put_up-IsWords p v h)

  pub take_down-put_up :
      (p : ℕ) (v : List ℕ) → 2 ≤ n → p ≤ n → length v ≡ n → IsWords v → take_down p (put_up p v) ≡ v
  unfolding take_down put_up
  take_down-put_up zero v two h len words = refl
  take_down-put_up (suc p) v two h len words =
      rw
        (take_back-put p (put_up p v) two (omega arith) (length-put_up p v ∙ len)
          (put_up-IsWords p v words))
        (take_down-put_up p v two (omega arith) len words)
