-- ===== src/Sdk/Base64/Tests.antt =====
-- Runs of the codings, and their theorem at a concrete input.
use douyin_live.Prelude.{◌≡◌, refl, true, [], ◌∷◌, none, arith}
use douyin_live.Sdk.Text.{codes}
use douyin_live.Sdk.Base64.{
  standard_alphabet, char_at, group, digit₁, digit₂, digit₃, digit₄, encode, encode_with,
  named_alphabet, encode_named, index_in, sextet, decode,
}
use douyin_live.Sdk.Base64.RoundTrip.{decode-encode}

encode_sample : encode standard_alphabet (codes "=") (codes "Many") ≡ codes "TWFueQ=="
unfolding encode char_at group digit₁ digit₂ digit₃ digit₄
encode_sample = refl

encode_own : encode_with (codes "abc") [] true ≡ codes "RIsN"
unfolding encode_with encode char_at group digit₁ digit₂ digit₃ digit₄
encode_own = refl

decode_sample : decode (codes "TWFueQ==") ≡ codes "Many"
unfolding decode sextet index_in
decode_sample = refl

encode_unknown : encode_named (codes "abc") "s9" ≡ none
unfolding encode_named named_alphabet
encode_unknown = refl

decode-encode_example :
    decode (encode standard_alphabet (codes "=") (0 ∷ 255 ∷ 16 ∷ 131 ∷ []))
    ≡ 0 ∷ 255 ∷ 16 ∷ 131 ∷ []
decode-encode_example = decode-encode (0 ∷ 255 ∷ 16 ∷ 131 ∷ []) (omega arith)
