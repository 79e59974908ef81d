-- ===== src/Sdk/Rc4/Stream.antt =====
-- `_0x21db29` against RC4 as it is defined on permutations: no array is written, a round composes the
-- permutation of the round before with an exchange.
use mathlib.Core.Path.{subst}
use douyin_live.Prelude.{
  ℕ, zero, suc, ◌+◌, ◌%◌, ◌<◌, ◌≡◌, ◌≢◌, refl, ◌∙◌, ap, ap₂, List, [], ◌∷◌, some, arith, length,
  get_or, bit_xor, ◌==◌, if◌then◌else◌,
}
use douyin_live.Sdk.Text.{Text, char_unit}
use douyin_live.Sdk.Rc4.{identity_from, swap, schedule, crypt, sbox, rc4}
use douyin_live.Sdk.Rc4.Sbox.{
  IsSbox, identity-IsSbox, swap-IsSbox, sbox-IsSbox, get_or-swap, get_or-identity_from,
}

-- The permutation with the images of `i` and `j` exchanged.
abbrev pub exchange : (ℕ → ℕ) → ℕ → ℕ → ℕ → ℕ
exchange p i j k = if j == k then p i else if i == k then p j else p k

pub record Round : Type 0 where
  pub j : ℕ
  pub p : ℕ → ℕ

-- A round at the place `i`, which adds `extra` to the sum.
abbrev pub next_round : ℕ → ℕ → Round → Round
next_round i extra r =
    let j' = (r.j + r.p i + extra) % 256 in record { j = j'; p = exchange r.p i j' }

-- After so many rounds of the key schedule.
unfoldable pub scheduled : Text → ℕ → Round
scheduled key zero = record { j = 0; p = λ k. k }
scheduled key (suc n) = next_round n (get_or key (n % length key) 0) (scheduled key n)

-- After so many characters of the message: the sum begins at 0 again.
unfoldable pub streamed : Text → ℕ → Round
unfolding scheduled
streamed key zero = record { j = 0; p = (scheduled key 256).p }
streamed key (suc n) = next_round (suc n % 256) 0 (streamed key n)

-- The key's byte for the character `n`.
unfoldable pub key_byte : Text → ℕ → ℕ
unfolding streamed
key_byte key n = let r = streamed key (suc n) in r.p ((r.p (suc n % 256) + r.p r.j) % 256)

-- The message from the character `n` on, each character under its byte of the key.
unfoldable pub xor_from : Text → ℕ → Text → Text
xor_from key n [] = []
xor_from key n (c ∷ message) = char_unit (bit_xor c (key_byte key n)) ∷ xor_from key (suc n) message

-- The array is one of the cipher, and holds the permutation.
record Holds (s : List ℕ) (j : ℕ) (r : Round) : Type 0 where
  is_sbox : IsSbox s
  sum : j ≡ r.j
  images : (k : ℕ) → k < 256 → get_or s k 0 ≡ r.p k

next_round-Holds :
    (s : List ℕ) (i j extra : ℕ) (r : Round)
    → i < 256
    → Holds s j r
    → let j' = (j + get_or s i 0 + extra) % 256 in Holds (swap s i j') j' (next_round i extra r)
next_round-Holds s i j extra r h held =
    let j' = (j + get_or s i 0 + extra) % 256 in
    let small : j' < 256 = omega arith in
    let full = held.is_sbox.full in
    let sum : j' ≡ (r.j + r.p i + extra) % 256 = omega (arith, held.sum, held.images i h) in
    record {
      is_sbox = swap-IsSbox i j' h small held.is_sbox;
      sum = sum;
      images = λ k p.
          get_or-swap s i j' k (omega arith) (omega arith)
          ∙ ground (arith, held.images i h, held.images j' small, held.images k p, sum);
    }

module _ (key : Text) where
  schedule-Holds :
      (left i j : ℕ) (s : List ℕ)
      → i + left ≡ 256
      → Holds s j (scheduled key i)
      → (k : ℕ) → k < 256
      → get_or (schedule key left i j s) k 0 ≡ (scheduled key 256).p k
  unfolding schedule
  schedule-Holds zero i j s e held k h =
      let last : i ≡ 256 = omega arith in held.images k h ∙ ap (λ n. (scheduled key n).p k) last
  schedule-Holds (suc left) i j s e held k h =
      let extra = get_or key (i % length key) 0 in
      let j' = (j + get_or s i 0 + extra) % 256 in
      let one : suc i ≡ i + 1 = omega arith in
      let next : Holds (swap s i j') j' (scheduled key (suc i)) =
        unfold scheduled in next_round-Holds s i j extra (scheduled key i) (omega arith) held in
      schedule-Holds left (i + 1) j' (swap s i j') (omega arith)
        (subst (λ n. Holds (swap s i j') j' (scheduled key n)) one next) k h

  begin-Holds : Holds (sbox key) 0 (streamed key 0)
  unfolding sbox streamed
  begin-Holds = record {
    is_sbox = unfold sbox in sbox-IsSbox key;
    sum = refl;
    images = schedule-Holds 256 0 0 (identity_from 256 0) refl (
        unfold scheduled in
        record {
          is_sbox = identity-IsSbox;
          sum = refl;
          images = λ k h. get_or-identity_from 256 0 k h ∙ omega arith;
        });
  }

  crypt_lem :
      (message : Text) (n i j : ℕ) (s : List ℕ)
      → i ≡ n % 256
      → Holds s j (streamed key n)
      → crypt message i j s ≡ xor_from key n message
  unfolding crypt xor_from
  crypt_lem [] n i j s e held = refl
  crypt_lem (c ∷ message) n i j s e held =
      let i' = (i + 1) % 256 in
      let j' = (j + get_or s i' 0) % 256 in
      let s' = swap s i' j' in
      let r = streamed key (suc n) in
      let place : i' ≡ suc n % 256 = omega arith in
      let sum : (j + get_or s i' 0 + 0) % 256 ≡ j' = omega arith in
      let made : Holds (swap s i' ((j + get_or s i' 0 + 0) % 256)) ((j + get_or s i' 0 + 0) % 256)
          (next_round i' 0 (streamed key n)) =
        next_round-Holds s i' j 0 (streamed key n) (omega arith) held in
      let held' : Holds s' j' r =
        unfold streamed in
        subst (λ m. Holds s' j' (next_round m 0 (streamed key n))) place
          (subst (λ m. Holds (swap s i' m) m (next_round i' 0 (streamed key n))) sum made) in
      let at = (get_or s' i' 0 + get_or s' j' 0) % 256 in
      let from : get_or s' i' 0 ≡ r.p (suc n % 256) =
        held'.images i' (omega arith) ∙ ap r.p place in
      let to : get_or s' j' 0 ≡ r.p r.j = held'.images j' (omega arith) ∙ ap r.p held'.sum in
      let byte : get_or s' at 0 ≡ key_byte key n =
        unfold key_byte in held'.images at (omega arith) ∙ ap r.p (omega (arith, from, to)) in
      ap₂ (λ (b : ℕ) (rest : Text). char_unit (bit_xor c b) ∷ rest) byte
        (crypt_lem message (suc n) i' j' s' place held')

-- With a key, the cipher gives each character under its byte of the key stream of RC4.
pub rc4-xor_from : (key message : Text) → key ≢ [] → rc4 key message ≡ some (xor_from key 0 message)
unfolding rc4
rc4-xor_from [] message ne = absurd (ne refl)
rc4-xor_from (k ∷ key) message ne =
    ap some (crypt_lem (k ∷ key) message 0 0 0 (sbox (k ∷ key)) refl (begin-Holds (k ∷ key)))
