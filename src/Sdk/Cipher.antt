-- ===== src/Sdk/Cipher.antt =====
-- jsScript/webmssdk.js, lines 4419 to 4430: `_0xdda738` encrypts a text under a key, which is also
-- a text, and `_0x4bb829` decrypts. Both go through UTF-8, arrays of words and the block cipher. A
-- text is given: for `null` both functions return it. `out_of_fuel` is never the result.
pub mod RoundTrip
mod Tests
use douyin_live.Prelude.{ℕ, true, false, List, [], ◌∷◌, Option, none, some}
use douyin_live.Prelude.Result.{Result, ok, err, ◌>>=◌, or_error}
use douyin_live.Sdk.Text.{Text}
use douyin_live.Sdk.Utf8
use douyin_live.Sdk.Words.{to_words, to_text, fill_key}
use douyin_live.Sdk.Xxtea

pub data Fault : Type 0 where
  coding : Utf8.Fault → Fault
  null_text : Fault
  out_of_fuel : Fault

-- An error of the coding is passed on.
unfoldable pub coded : Result Utf8.Fault Text → Result Fault Text
coded (ok text) = ok text
coded (err e) = err (coding e)

unfoldable pub key_words : Text → List ℕ
key_words bytes = fill_key (to_words bytes false)

unfoldable pub seal_bytes : Text → Text → Result Fault Text
seal_bytes bytes key =
    or_error null_text (to_text (Xxtea.encrypt (to_words bytes true) (key_words key)) false)

-- `_0xdda738`
unfoldable pub encrypt_text : Text → Text → Result Fault Text
unfolding coded
encrypt_text [] key = ok []
encrypt_text (c ∷ text) key = do
  bytes ← coded (Utf8.encode (c ∷ text))
  key_bytes ← coded (Utf8.encode key)
  seal_bytes bytes key_bytes

unfoldable pub open_bytes : Text → Text → Result Fault Text
open_bytes sealed key = do
  words ← or_error out_of_fuel (Xxtea.decrypt (to_words sealed false) (key_words key))
  or_error null_text (to_text words true)

-- `_0x4bb829`
unfoldable pub decrypt_text : Text → Text → Result Fault Text
unfolding coded
decrypt_text [] key = ok []
decrypt_text (c ∷ sealed) key = do
  key_bytes ← coded (Utf8.encode key)
  bytes ← open_bytes (c ∷ sealed) key_bytes
  coded (Utf8.decode bytes none)
