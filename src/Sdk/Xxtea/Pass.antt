-- ===== src/Sdk/Xxtea/Pass.antt =====
-- A pass over the array: the loops of the two directions make the steps of the ring, so a pass of
-- the decryption undoes a pass of the encryption.
use douyin_live.Prelude.{
  ℕ, zero, suc, ◌+◌, ◌-◌, ◌%◌, ◌^◌, ◌≤◌, ◌≡◌, refl, sym, ◌∙◌, ap, ap₂, List, arith, length, get_or,
  set, length-set, get_or-set_self,
}
use douyin_live.Sdk.Xxtea.{
  delta, mx, phase, encrypt_words, encrypt_pass, encrypt_passes, decrypt_words, decrypt_first,
  decrypt_pass,
}
use douyin_live.Sdk.Xxtea.Step.{
  IsWords, after, before, mask, put, take_back, put_up, take_down, take_down-put_up, length-put_up,
}

module _ (key : List ℕ) (sum m : ℕ) where
  -- The inner loop of the encryption makes the steps upwards.
  encrypt_words_lem :
      (left p z : ℕ) (v : List ℕ)
      → p + left ≡ m
      → length v ≡ suc m
      → z ≡ get_or (put_up key sum (suc m) p v) (before (suc m) p) 0
      → encrypt_words key sum left p z (put_up key sum (suc m) p v)
        ≡ (get_or (put_up key sum (suc m) m v) (before (suc m) m) 0, put_up key sum (suc m) m v)
  unfolding encrypt_words
  encrypt_words_lem zero p z v e len ez = let pm : p ≡ m = omega arith in cc
  encrypt_words_lem (suc left) p z v e len ez =
      let u = put_up key sum (suc m) p v in
      let w = (get_or u p 0 + mx sum (get_or u (suc p) 0) z p (phase sum) key) % 2 ^ 32 in
      let next : after (suc m) p ≡ suc p = unfold after in ground arith in
      let masked : mx sum (get_or u (suc p) 0) z p (phase sum) key ≡ mask key sum (suc m) p u =
        unfold mask in rw (next, ← ez) refl in
      let stored : set u p w ≡ put_up key sum (suc m) (suc p) v =
        unfold put_up put in ap (λ (t : ℕ). set u p ((get_or u p 0 + t) % 2 ^ 32)) masked in
      let len' : length u ≡ length v = length-put_up key sum (suc m) p v in
      let w_at : w ≡ get_or (put_up key sum (suc m) (suc p) v) p 0 =
        sym (get_or-set_self u p w 0 (omega arith)) ∙ ap (λ (l : List ℕ). get_or l p 0) stored in
      ap (λ (l : List ℕ). encrypt_words key sum left (suc p) w l) stored
      ∙ encrypt_words_lem left (suc p) w v (omega arith) len (unfold before in w_at)

  -- One pass of the encryption makes every step of the ring.
  encrypt_pass_lem :
      (v : List ℕ)
      → 1 ≤ m
      → length v ≡ suc m
      → encrypt_pass key sum (get_or v m 0) v
        ≡ (get_or (put_up key sum (suc m) (suc m) v) m 0, put_up key sum (suc m) (suc m) v)
  unfolding encrypt_pass
  encrypt_pass_lem v pos len =
      let last : length v - 1 ≡ m = omega arith in
      let u = put_up key sum (suc m) m v in
      let z = get_or u (before (suc m) m) 0 in
      let words : encrypt_words key sum m 0 (get_or v m 0) v ≡ (z, u) =
        unfold put_up before in
        encrypt_words_lem m 0 (get_or v m 0) v (omega arith) len
          (ap (λ (i : ℕ). get_or v i 0) (omega arith)) in
      let y = get_or u 0 0 in
      let w = (get_or u m 0 + mx sum y z m (phase sum) key) % 2 ^ 32 in
      let wrap : after (suc m) m ≡ 0 = unfold after in ground arith in
      let stored : set u m w ≡ put_up key sum (suc m) (suc m) v =
        unfold put_up put mask in rw wrap refl in
      let len' : length u ≡ length v = length-put_up key sum (suc m) m v in
      let at : w ≡ get_or (put_up key sum (suc m) (suc m) v) m 0 =
        sym (get_or-set_self u m w 0 (omega arith)) ∙ ap (λ (l : List ℕ). get_or l m 0) stored in
      rw (last, words) (ap₂ (λ (a : ℕ) (b : List ℕ). (a, b)) at stored)

  -- The inner loop of the decryption with the last statement of the pass.
  decrypt_words_lem :
      (p y : ℕ) (v : List ℕ)
      → p ≤ m
      → length v ≡ suc m
      → y ≡ get_or v (after (suc m) p) 0
      → decrypt_first key sum m (decrypt_words key sum p y v)
        ≡ (get_or (take_down key sum (suc m) (suc p) v) 0 0, take_down key sum (suc m) (suc p) v)
  unfolding decrypt_words take_down
  decrypt_words_lem zero y v h len ey =
      let z = get_or v m 0 in
      let w = (get_or v 0 0 + 2 ^ 32 - mx sum y z 0 (phase sum) key) % 2 ^ 32 in
      let ring : before (suc m) 0 ≡ m = unfold before in omega arith in
      let stored : set v 0 w ≡ take_down key sum (suc m) 1 v =
        unfold take_back mask in rw (ring, ← ey) refl in
      let at : w ≡ get_or (take_down key sum (suc m) 1 v) 0 0 =
        sym (get_or-set_self v 0 w 0 (omega arith)) ∙ ap (λ (l : List ℕ). get_or l 0 0) stored in
      unfold decrypt_first in ap₂ (λ (a : ℕ) (b : List ℕ). (a, b)) at stored
  decrypt_words_lem (suc p) y v h len ey =
      let z = get_or v p 0 in
      let w = (get_or v (suc p) 0 + 2 ^ 32 - mx sum y z (suc p) (phase sum) key) % 2 ^ 32 in
      let v' = take_back key sum (suc m) (suc p) v in
      let stored : set v (suc p) w ≡ v' = unfold take_back mask before in rw (← ey) refl in
      let next : after (suc m) p ≡ suc p = unfold after in ground arith in
      let len' : length (set v (suc p) w) ≡ length v = length-set v (suc p) w in
      let at : w ≡ get_or v' (after (suc m) p) 0 =
        sym (get_or-set_self v (suc p) w 0 (omega arith))
        ∙ (ap (λ (l : List ℕ). get_or l (suc p) 0) stored
            ∙ ap (λ (i : ℕ). get_or v' i 0) (sym next)) in
      let len'' : length v' ≡ suc m = ap length (sym stored) ∙ (len' ∙ len) in
      ap (λ (l : List ℕ). decrypt_first key sum m (decrypt_words key sum p w l)) stored
      ∙ decrypt_words_lem p w v' (omega arith) len'' at

  -- One pass of the decryption takes every step of the ring back.
  decrypt_pass_lem :
      (v : List ℕ)
      → 1 ≤ m
      → length v ≡ suc m
      → decrypt_pass key sum (get_or v 0 0) v
        ≡ (get_or (take_down key sum (suc m) (suc m) v) 0 0, take_down key sum (suc m) (suc m) v)
  unfolding decrypt_pass
  decrypt_pass_lem v pos len =
      let last : length v - 1 ≡ m = omega arith in
      let wrap : after (suc m) m ≡ 0 = unfold after in ground arith in
      rw last (
        decrypt_words_lem m (get_or v 0 0) v (omega arith) len
          (ap (λ (i : ℕ). get_or v i 0) (sym wrap)))

module _ (key : List ℕ) where
  unfoldable pub pass : ℕ → List ℕ → List ℕ
  pass sum v = put_up key sum (length v) (length v) v

  pub length-pass : (sum : ℕ) (v : List ℕ) → length (pass sum v) ≡ length v
  unfolding pass
  length-pass sum v = length-put_up key sum (length v) (length v) v

  -- Encryption as repeated passes over whole arrays.
  unfoldable pub passes : ℕ → ℕ → List ℕ → List ℕ
  passes zero sum v = v
  passes (suc q) sum v = let sum' = (sum + delta) % 2 ^ 32 in passes q sum' (pass sum' v)

  pub encrypt_passes_lem :
      (q sum m : ℕ) (v : List ℕ)
      → 1 ≤ m
      → length v ≡ suc m
      → encrypt_passes key q sum (get_or v m 0) v ≡ passes q sum v
  unfolding encrypt_passes passes
  encrypt_passes_lem zero sum m v pos len = refl
  encrypt_passes_lem (suc q) sum m v pos len =
      let sum' = (sum + delta) % 2 ^ 32 in
      let e : put_up key sum' (suc m) (suc m) v ≡ pass sum' v = unfold pass in rw len refl in
      rw (encrypt_pass_lem key sum' m v pos len, e)
        (encrypt_passes_lem q sum' m (pass sum' v) pos (length-pass sum' v ∙ len))

  pub length-passes : (q sum : ℕ) (v : List ℕ) → length (passes q sum v) ≡ length v
  unfolding passes
  length-passes zero sum v = refl
  length-passes (suc q) sum v =
      let sum' = (sum + delta) % 2 ^ 32 in length-passes q sum' (pass sum' v) ∙ length-pass sum' v

  -- A pass of the decryption is the inverse of a pass of the encryption.
  pub decrypt_pass-pass :
      (sum : ℕ) (v : List ℕ)
      → 2 ≤ length v
      → IsWords v
      → decrypt_pass key sum (get_or (pass sum v) 0 0) (pass sum v) ≡ (get_or v 0 0, v)
  decrypt_pass-pass sum v two words =
      let m = length v - 1 in
      let n : suc m ≡ length v = omega arith in
      let back : take_down key sum (suc m) (suc m) (pass sum v) ≡ v =
        unfold pass in
        rw n (take_down-put_up key sum (length v) (length v) v two (omega arith) refl words) in
      rw (decrypt_pass_lem key sum m (pass sum v) (omega arith) (length-pass sum v ∙ sym n), back)
        refl
