-- ===== src/Sdk/Cipher/Tests.antt =====
-- Runs of the text cipher, and its theorem at a concrete input.
use douyin_live.Prelude.{◌≡◌, refl, [], ◌∷◌, arith}
use douyin_live.Prelude.Result.{ok, err}
use douyin_live.Sdk.Text.{Text, codes}
use douyin_live.Sdk.Utf8.{
  malformed, all_units_below, is_surrogate, encode_unit, bytes₂, encode_loop, encode,
}
use douyin_live.Sdk.Cipher.{coding, encrypt_text, decrypt_text}
use douyin_live.Sdk.Cipher.RoundTrip.{decrypt_text-encrypt_text}

encrypt_lone : encrypt_text (0xd83d ∷ []) (codes "key") ≡ err (coding malformed)
unfolding encrypt_text encode all_units_below encode_loop is_surrogate
encrypt_lone = refl

decrypt_text-encrypt_text_example :
    (cipher : Text) × (encrypt_text (0xe9 ∷ 0x61 ∷ []) (codes "key") ≡ ok cipher)
    × (decrypt_text cipher (codes "key") ≡ ok (0xe9 ∷ 0x61 ∷ []))
unfolding encode all_units_below encode_loop is_surrogate encode_unit bytes₂
decrypt_text-encrypt_text_example =
    decrypt_text-encrypt_text (0xe9 ∷ 0x61 ∷ []) (codes "key") (0xc3 ∷ 0xa9 ∷ 0x61 ∷ [])
      (codes "key") (omega arith) refl refl (omega arith)
