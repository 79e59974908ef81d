-- ===== src/Sdk/Profile/Opened.antt =====
-- What was sent can be decrypted.
use douyin_live.Prelude.{◌^◌, ◌<◌, ◌≡◌, refl, false, [], ◌++◌, length}
use douyin_live.Prelude.Result.{ok}
use douyin_live.Sdk.Text.{Text, IsText}
use douyin_live.Sdk.Utf8
use douyin_live.Sdk.Base64.{encode_with}
use douyin_live.Sdk.Cipher.{decrypt_text}
use douyin_live.Sdk.Cipher.RoundTrip.{decrypt_text-encrypt_text}
use douyin_live.Sdk.Profile.{profile_key, sealed_profile}

-- What is sent is the coding of a cipher text and the identifier behind it, and the text is decrypted
-- under the key of the identifier. UTF-8 can encode the text and the key, and the text has fewer than
-- 2 ^ 31 bytes.
pub sealed_profile_opened :
    (text id bytes key_bytes : Text)
    → IsText text
    → Utf8.encode text ≡ ok bytes
    → Utf8.encode (profile_key id) ≡ ok key_bytes
    → length bytes < 2 ^ 31
    → (cipher : Text) × (sealed_profile text id ≡ ok (encode_with (cipher ++ id) [] false))
      × (decrypt_text cipher (profile_key id) ≡ ok text)
unfolding sealed_profile
sealed_profile_opened text id bytes key_bytes t e k small =
    let (cipher, seals, opens) =
      decrypt_text-encrypt_text text (profile_key id) bytes key_bytes t e k small in
    (cipher, rw (sealed_profile, seals) refl, opens)
