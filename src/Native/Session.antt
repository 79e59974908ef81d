-- ===== src/Native/Session.antt =====
-- A whole session of signatures: a generator of Go and the script stay in step.
use douyin_live.Prelude.{
  ℕ, ◌+◌, ◌%◌, ◌<◌, ◌≡◌, refl, ◌∙◌, ap, ap₂, Bool, true, false, not, ◌||◌, List, [], ◌∷◌, Option,
  some, arith, ◌==◌, length, bit_and, and_mask, All, map,
}
use douyin_live.Prelude.Result.{Result, ok}
use douyin_live.Sdk.Text.{Text}
use douyin_live.Sdk.Hex.{IsHex}
use douyin_live.Sdk.Bogus.{Session, Draws, get_sign, x_bogus}
use douyin_live.Native.{Error, Generator, after_read, read_random_byte, sign, sign_with_values}
use douyin_live.Native.Agreement.{IsDigest, IsIdle, sign_with_values-get_sign}

-- The first byte is taken if it may be.
read_first :
    (b : ℕ) (rest : List ℕ) (exclude_ff : Bool)
    → (not exclude_ff || not (b == 255)) ≡ true
    → read_random_byte (b ∷ rest) exclude_ff ≡ ok (b, rest)
unfolding read_random_byte
read_first b rest exclude_ff h = rw h refl

not_ff : (b : ℕ) → b < 255 → (false || not (b == 255)) ≡ true
not_ff b h = ground arith

-- What the two signers are given for one signature: the stub, the values of `Math.random`, and the
-- byte that Go reads for the flag.
pub record Request : Type 0 where
  pub stub : Text
  pub draws : Draws
  pub flag_byte : ℕ

-- A stub of 32 lower-case digits, and the same random values for both.
pub record IsRequest (r : Request) : Type 0 where
  pub digits : IsHex r.stub
  pub whole : length r.stub ≡ 32
  pub flag_is : r.draws.flag ≡ r.flag_byte % 2
  pub payload_in : r.draws.payload < 255
  pub key_in : r.draws.key < 255

-- The bytes that Go's random source gives for the requests.
unfoldable pub random_bytes : List Request → List ℕ
random_bytes [] = []
random_bytes (r ∷ rs) = r.flag_byte ∷ r.draws.payload ∷ r.draws.key ∷ random_bytes rs

module _ (md5 : List ℕ → List ℕ) where
  -- `Sign` with three good bytes to read: the counter goes up, and the values are signed.
  sign_step :
      (stub : Text) (c f p k : ℕ) (rest : List ℕ)
      → p < 255
      → k < 255
      → sign md5 stub (record { counter = c; random = f ∷ p ∷ k ∷ rest }) ≡ (
        sign_with_values md5 stub (bit_and ((c + 1) % 256) 63) (bit_and f 1 == 1) p k,
        record { counter = (c + 1) % 256; random = rest },
      )
  unfolding sign after_read
  sign_step stub c f p k rest hp hk =
      rw
        (
          read_first f (p ∷ k ∷ rest) false refl,
          read_first p (k ∷ rest) true (not_ff p hp),
          read_first k rest true (not_ff k hk),
        )
        refl

  -- One request to each: the same text, and both stay in step.
  step :
      (r : Request) (rest : List ℕ) (s : Session) (c : ℕ)
      → IsDigest md5
      → IsRequest r
      → IsIdle s
      → c % 64 ≡ s.bogus_index % 64
      → (out : Text) × ((get_sign md5 r.stub r.draws s).0 ≡ some out)
        × (sign md5 r.stub
              (record { counter = c; random = r.flag_byte ∷ r.draws.payload ∷ r.draws.key ∷ rest })
            ≡ (ok out, record { counter = (c + 1) % 256; random = rest }))
  step r rest s c digest good idle same =
      let d = r.draws in
      let f = r.flag_byte in
      let counter = (c + 1) % 256 in
      let after : Generator = record { counter = counter; random = rest } in
      let next : bit_and counter 63 % 64 ≡ (s.bogus_index + 1) % 64 =
        omega (arith, and_mask 6 counter) in
      let (out, script, go) =
        sign_with_values-get_sign md5 digest r.stub s d (bit_and counter 63) good.digits good.whole
          idle next (omega (arith, good.flag_is)) (omega (arith, good.payload_in))
          (omega (arith, good.key_in)) in
      let bit : bit_and f 1 ≡ d.flag = omega (arith, and_mask 1 f, good.flag_is) in
      let signed : Result Error (List ℕ) → Result Error (List ℕ) × Generator = λ x. (x, after) in
      (
        out,
        script,
        sign_step r.stub c f d.payload d.key rest good.payload_in good.key_in
            ∙ ap signed (
                ap (λ b. sign_with_values md5 r.stub (bit_and counter 63) (b == 1) d.payload d.key)
                  bit
                ∙ go),
      )

  -- The answers of the script to the requests in their order.
  unfoldable pub get_signs : List Request → Session → List (Option Text)
  get_signs [] s = []
  get_signs (r ∷ rs) s =
      let answer = get_sign md5 r.stub r.draws s in answer.0 ∷ get_signs rs answer.1

  -- The answers of Go.
  unfoldable pub signs : List Request → Generator → List (Result Error (List ℕ))
  signs [] g = []
  signs (r ∷ rs) g = let answer = sign md5 r.stub g in answer.0 ∷ signs rs answer.1

  -- A session of signatures: from counters that are equal modulo 64, with the script idle, Go's
  -- generator answers every request, and with the text that the script answers. The random source
  -- gives the values of `Math.random`, which are below 255, and for the flag a byte whose lowest
  -- bit is the script's bit.
  pub signs-get_signs :
      (rs : List Request) (s : Session) (c : ℕ)
      → IsDigest md5
      → All IsRequest rs
      → IsIdle s
      → c % 64 ≡ s.bogus_index % 64
      → (outs : List Text) × (get_signs rs s ≡ map some outs)
        × (signs rs (record { counter = c; random = random_bytes rs }) ≡ map ok outs)
  unfolding get_signs signs random_bytes get_sign x_bogus
  signs-get_signs [] s c digest good idle same = ([], refl, refl)
  signs-get_signs (r ∷ rs) s c digest (h, good) idle same =
      let (out, script, go) = step r (random_bytes rs) s c digest h idle same in
      let idle' : IsIdle (get_sign md5 r.stub r.draws s).1 = record {
        fresh = idle.fresh;
        no_moves = idle.no_moves;
        no_clicks = idle.no_clicks;
        no_keys = idle.no_keys;
        no_touch = idle.no_touch;
      } in
      let (outs, scripts, gos) =
        signs-get_signs rs (get_sign md5 r.stub r.draws s).1 ((c + 1) % 256) digest good idle'
          (omega (arith, same)) in
      (
        out ∷ outs,
        ap₂ ◌∷◌ script scripts,
        ap (λ x. x.0 ∷ signs rs x.1) go ∙ ap (λ l. ok out ∷ l) gos,
      )
