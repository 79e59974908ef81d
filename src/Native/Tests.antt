-- ===== src/Native/Tests.antt =====
-- Runs of the native signature with a digest that is constant, and the theorems of the agreement
-- at concrete inputs.
use douyin_live.Prelude.{
  ℕ, ◌≡◌, refl, true, false, List, [], ◌∷◌, some, map, replicate, arith, ◌==◌,
}
use douyin_live.Prelude.Result.{ok, err}
use douyin_live.Sdk.Text.{Text, codes}
use douyin_live.Sdk.Hex
use douyin_live.Sdk.Rc4.{rc4}
use douyin_live.Sdk.Base64.{encode}
use douyin_live.Sdk.Bogus.{Behaviour, Session, Draws, get_sign}
use douyin_live.Native.{
  read_failed, read_random_byte, after_read, sign, sign_with_values, sign_bytes, payload_head,
  double_md5, checksum,
}
use douyin_live.Native.Stdlib.{
  from_hex, decode_string, bytes_from, mix, new_cipher, key_stream, xor_with, xor_key_stream,
  encode_to_string,
}
use douyin_live.Native.Parts.{
  decode_string-decode, xor_key_stream-rc4, encode-encode_to_string, marked_alphabet,
}
use douyin_live.Native.Agreement.{IsDigest, IsIdle, sign_with_values-get_sign}
use douyin_live.Native.Session.{Request, IsRequest, random_bytes, get_signs, signs, signs-get_signs}

abbrev digest : List ℕ → List ℕ
digest bytes = replicate 16 7

abbrev stub : Text
stub = codes "d41d8cd98f00b204e9800998ecf8427e"

stub-IsHex : Hex.IsHex stub
stub-IsHex = ground arith

abbrev idle_behaviour : Behaviour
idle_behaviour = record {
  moves = 0;
  clicks = 0;
  keys = 0;
  moves_fast = false;
  keys_fast = false;
  touch_supported = true;
  touch_seen = false;
}

abbrev fresh : Session
fresh = record { bogus_index = 0; envcode = 0; initialized = false; behaviour = idle_behaviour }

abbrev draws : Draws
draws = record { flag = 1; payload = 3; key = 200 }

digest-IsDigest : IsDigest digest
digest-IsDigest bytes = omega arith

fresh-IsIdle : IsIdle fresh
fresh-IsIdle = record {
  fresh = refl;
  no_moves = refl;
  no_clicks = refl;
  no_keys = refl;
  no_touch = refl;
}

-- The generator passes over 255, and the counter wraps around.
sign_sample :
    sign digest stub (record { counter = 255; random = 1 ∷ 255 ∷ 3 ∷ 200 ∷ 9 ∷ [] })
    ≡ (ok (codes "68NLnYeUeHg2fkex"), record { counter = 0; random = 9 ∷ [] })
unfolding sign after_read read_random_byte sign_with_values decode_string from_hex sign_bytes
    payload_head double_md5 checksum new_cipher mix bytes_from xor_key_stream xor_with key_stream
    encode_to_string
sign_sample = refl

-- A reader that ends after the first byte: the counter went up all the same.
sign_short :
    sign digest stub (record { counter = 4; random = 1 ∷ [] })
    ≡ (err read_failed, record { counter = 5; random = [] })
unfolding sign after_read read_random_byte
sign_short = refl

sign_with_values-get_sign_example :
    (out : Text) × ((get_sign digest stub draws fresh).0 ≡ some out)
    × (sign_with_values digest stub 1 (1 == 1) 3 200 ≡ ok out)
sign_with_values-get_sign_example =
    sign_with_values-get_sign digest digest-IsDigest stub fresh draws 1 stub-IsHex refl fresh-IsIdle
      refl (omega arith) (omega arith) (omega arith)

abbrev request : Request
request = record { stub = stub; draws = draws; flag_byte = 7 }

request-IsRequest : IsRequest request
request-IsRequest = record {
  digits = stub-IsHex;
  whole = refl;
  flag_is = refl;
  payload_in = omega arith;
  key_in = omega arith;
}

signs-get_signs_example :
    (outs : List Text) × (get_signs digest (request ∷ request ∷ []) fresh ≡ map some outs)
    × (signs digest
          (request ∷ request ∷ [])
          (record { counter = 64; random = random_bytes (request ∷ request ∷ []) })
        ≡ map ok outs)
signs-get_signs_example =
    signs-get_signs digest (request ∷ request ∷ []) fresh 64 digest-IsDigest
      (request-IsRequest, (request-IsRequest, tt)) fresh-IsIdle refl

decode_string-decode_run : decode_string (codes "09af") ≡ some (Hex.decode (codes "09af"))
decode_string-decode_run =
    decode_string-decode (codes "09af") (refl, (refl, (refl, (refl, tt)))) refl

xor_key_stream-rc4_run :
    (cipher : List ℕ) × (new_cipher (200 ∷ []) ≡ some cipher)
    × (rc4 (200 ∷ []) (1 ∷ 255 ∷ []) ≡ some (xor_key_stream cipher (1 ∷ 255 ∷ [])))
xor_key_stream-rc4_run = xor_key_stream-rc4 200 (1 ∷ 255 ∷ []) (omega arith)

encode-encode_to_string_run :
    encode marked_alphabet (codes "=") (1 ∷ 2 ∷ 3 ∷ []) ≡ encode_to_string (1 ∷ 2 ∷ 3 ∷ [])
encode-encode_to_string_run = encode-encode_to_string (1 ∷ 2 ∷ 3 ∷ []) (omega arith) refl
