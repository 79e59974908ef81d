-- ===== src/Sdk/Hex/Tests.antt =====
-- Runs of the hexadecimal coding, and its theorems at concrete inputs.
use douyin_live.Prelude.{◌≡◌, refl, [], ◌∷◌, arith}
use douyin_live.Sdk.Text.{codes}
use douyin_live.Sdk.Hex.{hex_high, hex_low, hex_value, encode, decode}
use douyin_live.Sdk.Hex.RoundTrip.{hex_decode-encode, hex_encode-decode}

encode_sample : encode (0 ∷ 171 ∷ 255 ∷ []) ≡ codes "00abff"
unfolding encode hex_high hex_low
encode_sample = refl

-- A capital letter has no entry, and a last single digit is dropped.
decode_sample : decode (codes "0AffF") ≡ 0 ∷ 255 ∷ []
unfolding decode hex_value
decode_sample = refl

hex_decode-encode_run : decode (encode (0 ∷ 171 ∷ 255 ∷ [])) ≡ 0 ∷ 171 ∷ 255 ∷ []
hex_decode-encode_run = hex_decode-encode (0 ∷ 171 ∷ 255 ∷ []) (omega arith)

hex_encode-decode_run : encode (decode (codes "09af")) ≡ codes "09af"
hex_encode-decode_run =
    hex_encode-decode (codes "09af") (refl, (refl, (refl, (refl, tt)))) (omega arith)
