-- ===== src/Sdk/Utf8/Tests.antt =====
-- Runs of the UTF-8 coding, and its theorems at concrete inputs.
use douyin_live.Prelude.{◌≡◌, refl, false, [], ◌∷◌, none, some, arith}
use douyin_live.Prelude.Result.{ok, err}
use douyin_live.Sdk.Utf8.{
  malformed, unfinished, bad_byte, out_of_range, all_units_below, is_surrogate, is_pair,
  encode_unit, bytes₂, bytes₃, bytes₄, join_pair, encode_loop, encode, next₂, next₃, next₄, next,
  decode₂, decode₄, split_pair, decode_units, decode_chunks, decode, prepend,
}
use douyin_live.Sdk.Utf8.RoundTrip.{utf8_decode-encode}
use douyin_live.Sdk.Utf8.Chunks.{decode_chunks-decode_units}

encode_mixed :
    encode (0x61 ∷ 0xe9 ∷ 0x20ac ∷ 0xd83d ∷ 0xde00 ∷ [])
    ≡ ok (0x61 ∷ 0xc3 ∷ 0xa9 ∷ 0xe2 ∷ 0x82 ∷ 0xac ∷ 0xf0 ∷ 0x9f ∷ 0x98 ∷ 0x80 ∷ [])
unfolding encode all_units_below encode_loop is_surrogate is_pair encode_unit bytes₂ bytes₃ bytes₄
    join_pair
encode_mixed = refl

encode_lone : encode (0xd83d ∷ 0x61 ∷ []) ≡ err malformed
unfolding encode all_units_below encode_loop is_surrogate is_pair
encode_lone = refl

decode_bad : decode (0x80 ∷ []) none ≡ err bad_byte
unfolding decode all_units_below decode_units next
decode_bad = refl

decode_cut : decode (0xe2 ∷ 0x82 ∷ []) none ≡ err unfinished
unfolding decode all_units_below decode_units next next₃
decode_cut = refl

decode_beyond : decode (0xf4 ∷ 0xbf ∷ 0x80 ∷ 0x80 ∷ []) none ≡ err out_of_range
unfolding decode all_units_below decode_units next next₄ decode₄ split_pair
decode_beyond = refl

decode_limited : decode (0xc3 ∷ 0xa9 ∷ 0x61 ∷ 0x62 ∷ []) (some 2) ≡ ok (0xe9 ∷ 0x61 ∷ [])
unfolding decode all_units_below decode_units next next₂ decode₂
decode_limited = refl

utf8_decode-encode_example :
    decode (0xc3 ∷ 0xa9 ∷ 0xf0 ∷ 0x9f ∷ 0x98 ∷ 0x80 ∷ []) none ≡ ok (0xe9 ∷ 0xd83d ∷ 0xde00 ∷ [])
unfolding encode all_units_below encode_loop is_surrogate is_pair encode_unit bytes₂ bytes₄
    join_pair
utf8_decode-encode_example =
    utf8_decode-encode (0xe9 ∷ 0xd83d ∷ 0xde00 ∷ []) (0xc3 ∷ 0xa9 ∷ 0xf0 ∷ 0x9f ∷ 0x98 ∷ 0x80 ∷ [])
      (omega arith) refl

decode_chunks-decode_units_example :
    decode_chunks 2 false (0x62 ∷ []) (0xc3 ∷ 0xa9 ∷ 0x61 ∷ [])
    ≡ prepend (0x62 ∷ []) (decode_units 2 false (0xc3 ∷ 0xa9 ∷ 0x61 ∷ []))
decode_chunks-decode_units_example =
    decode_chunks-decode_units 2 false (0x62 ∷ []) (0xc3 ∷ 0xa9 ∷ 0x61 ∷ [])
