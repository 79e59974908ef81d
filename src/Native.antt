-- ===== src/Native.antt =====
-- internal/webcastsign/native.go: the signature of the WebSocket, computed in Go. A `byte` is a
-- number below 256, an `io.Reader` the list of the bytes that it has left, and `md5.Sum` the
-- parameter `md5`. The mutex of the generator is left out: a method runs as a whole.
pub mod Stdlib
pub mod Parts
pub mod Agreement
pub mod Session
mod Tests
use douyin_live.Prelude.{
  ℕ, ◌+◌, ◌%◌, Bool, true, false, ◌&&◌, ◌||◌, not, List, [], ◌∷◌, ◌++◌, Option, none, some, ◌==◌,
  if◌then◌else◌, length, get_or, bit_and, bit_or, bit_xor,
}
use douyin_live.Prelude.Result.{Result, ok, err, ◌>>=◌, or_error}
use douyin_live.Native.Stdlib.{decode_string, new_cipher, xor_key_stream, encode_to_string}

pub data Error : Type 0 where
  invalid_stub : Error
  read_failed : Error
  cipher_failed : Error
  nil_generator : Error

-- The constants, as `byte`.
abbrev pub websocket_mode_flag : ℕ
websocket_mode_flag = 64

abbrev pub environment_code : ℕ
environment_code = 1

abbrev pub user_behavior_code : ℕ
user_behavior_code = 14

-- `for index := 0; index < 9; index++ { payload[9] ^= payload[index] }`
unfoldable pub checksum : List ℕ → ℕ → ℕ
checksum [] last = last
checksum (b ∷ bytes) last = checksum bytes (bit_xor last b)

-- `readRandomByte`: with `exclude_ff` the bytes 255 are passed over.
unfoldable pub read_random_byte : List ℕ → Bool → Result Error (ℕ × List ℕ)
read_random_byte [] exclude_ff = err read_failed
read_random_byte (b ∷ reader) exclude_ff =
    let again = read_random_byte reader exclude_ff in
    if not exclude_ff || not (b == 255) then ok (b, reader) else again

pub record Generator : Type 0 where
  pub counter : ℕ
  pub random : List ℕ

-- What `Sign` does after a read: an error is returned at once. A reader that failed has no bytes
-- left.
unfoldable pub after_read :
    Result Error (ℕ × List ℕ)
    → ℕ
    → (ℕ → List ℕ → Result Error (List ℕ) × Generator)
    → Result Error (List ℕ) × Generator
after_read (err e) counter next = (err e, record { counter = counter; random = [] })
after_read (ok (b, reader)) counter next = next b reader

module _ (md5 : List ℕ → List ℕ) where
  -- `doubleMD5`
  unfoldable pub double_md5 : List ℕ → List ℕ
  double_md5 bytes = md5 (md5 bytes)

  -- The first nine bytes of the payload.
  unfoldable pub payload_head : ℕ → List ℕ → ℕ → List ℕ
  payload_head counter stub_bytes payload_random =
      let empty = double_md5 [] in
      let stub_digest = md5 stub_bytes in
      bit_and counter 0x3f
      ∷ 0
      ∷ environment_code
      ∷ user_behavior_code
      ∷ get_or empty 14 0
      ∷ get_or empty 15 0
      ∷ get_or stub_digest 14 0
      ∷ get_or stub_digest 15 0
      ∷ payload_random
      ∷ []

  -- What `SignWithValues` does with a decoded stub.
  unfoldable pub sign_bytes : List ℕ → ℕ → Bool → ℕ → ℕ → Result Error (List ℕ)
  sign_bytes stub_bytes counter random_flag payload_random key_random =
      let head = payload_head counter stub_bytes payload_random in
      let payload = head ++ checksum head 0 ∷ [] in
      let flags = if random_flag then bit_or websocket_mode_flag 16 else websocket_mode_flag in
      or_error cipher_failed (new_cipher (key_random ∷ [])) >>= λ cipher.
      ok (encode_to_string (flags ∷ key_random ∷ xor_key_stream cipher payload))

  unfoldable pub sign_with_values : List ℕ → ℕ → Bool → ℕ → ℕ → Result Error (List ℕ)
  sign_with_values stub counter random_flag payload_random key_random =
      or_error invalid_stub (decode_string stub) >>= λ stub_bytes.
      if length stub_bytes == 16
      then sign_bytes stub_bytes counter random_flag payload_random key_random
      else err invalid_stub

  -- `Generator.Sign`: the result, and the generator afterwards, on every path.
  unfoldable pub sign : List ℕ → Generator → Result Error (List ℕ) × Generator
  sign stub g = after_read (read_random_byte g.random false) g.counter (λ flag r₁.
      let counter' = (g.counter + 1) % 256 in
      after_read (read_random_byte r₁ true) counter' (λ payload r₂.
        after_read (read_random_byte r₂ true) counter' (λ key r₃. (
          sign_with_values stub (bit_and counter' 0x3f) (bit_and flag 1 == 1) payload key,
          record { counter = counter'; random = r₃ },
        ))))

  -- A nil generator is refused.
  unfoldable pub sign_checked : List ℕ → Option Generator → Result Error (List ℕ) × Option Generator
  sign_checked stub none = (err nil_generator, none)
  sign_checked stub (some g) = let r = sign stub g in (r.0, some r.1)
