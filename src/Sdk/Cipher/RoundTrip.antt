-- ===== src/Sdk/Cipher/RoundTrip.antt =====
-- Decryption takes back the encrypted text.
use douyin_live.Prelude.{
  ℕ, ◌%◌, ◌^◌, ◌<◌, ◌≤◌, ◌≡◌, refl, ◌∙◌, true, false, List, [], ◌∷◌, none, arith, length,
  length-append, All-append, append-nil,
}
use douyin_live.Prelude.Result.{ok}
use douyin_live.Sdk.Text.{Text, IsText, IsBytes}
use douyin_live.Sdk.Utf8
use douyin_live.Sdk.Utf8.RoundTrip.{utf8_decode-encode, encode-IsBytes, length-encode}
use douyin_live.Sdk.Words.{words_of, to_words, chars_of, join_chars, to_text}
use douyin_live.Sdk.Words.RoundTrip.{
  to_text-to_words, words_of-join_chars, words_of-IsWords, length-words_of,
}
use douyin_live.Sdk.Xxtea
use douyin_live.Sdk.Xxtea.Step.{IsWords}
use douyin_live.Sdk.Xxtea.Inverse.{decrypt-encrypt, encrypt-IsWords, length-encrypt}
use douyin_live.Sdk.Cipher.{key_words, seal_bytes, encrypt_text, open_bytes, decrypt_text}

to_words-IsWords : (bytes : Text) → IsBytes bytes → IsWords (to_words bytes true)
unfolding to_words
to_words-IsWords bytes h =
    All-append (λ w. w < 2 ^ 32) (words_of bytes) (length bytes % 2 ^ 32 ∷ [])
      (words_of-IsWords bytes h) (omega arith, tt)

length-to_words : (bytes : Text) → 0 < length bytes → 2 ≤ length (to_words bytes true)
unfolding to_words
length-to_words bytes h =
    omega (
      arith,
      length-append {0} (words_of bytes) (length bytes % 2 ^ 32 ∷ []),
      length-words_of bytes,
    )

abbrev pub sealed : Text → Text → Text
sealed bytes key = join_chars (Xxtea.encrypt (to_words bytes true) (key_words key))

pub seal_bytes_lem : (bytes key : Text) → seal_bytes bytes key ≡ ok (sealed bytes key)
unfolding seal_bytes to_text
seal_bytes_lem bytes key = refl

length-join_chars : (words : List ℕ) → length words ≤ length (join_chars words)
unfolding join_chars chars_of
length-join_chars [] = omega arith
length-join_chars (w ∷ words) = omega (arith, length-join_chars words)

module _ (bytes key : Text) (h : IsBytes bytes) (some_bytes : 0 < length bytes) where
  -- The sealed text is not empty.
  length-sealed : 0 < length (sealed bytes key)
  length-sealed =
      let words = to_words bytes true in
      omega (
        arith,
        length-to_words bytes some_bytes,
        length-encrypt words (key_words key) (length-to_words bytes some_bytes),
        length-join_chars (Xxtea.encrypt words (key_words key)),
      )

  -- It is opened to the bytes.
  open_bytes-sealed : length bytes < 2 ^ 31 → open_bytes (sealed bytes key) key ≡ ok bytes
  unfolding open_bytes
  open_bytes-sealed small =
      let words = to_words bytes true in
      let two = length-to_words bytes some_bytes in
      let encrypted = Xxtea.encrypt words (key_words key) in
      let are_words = to_words-IsWords bytes h in
      let same : to_words (join_chars encrypted) false ≡ encrypted =
        unfold to_words in
        append-nil (words_of (join_chars encrypted))
        ∙ words_of-join_chars encrypted (encrypt-IsWords words (key_words key) two are_words) in
      rw (same, decrypt-encrypt words (key_words key) two are_words, to_text-to_words bytes h small)
        refl

decrypt_text-open_bytes :
    (text key key_bytes bytes cipher : Text)
    → 0 < length cipher
    → Utf8.encode key ≡ ok key_bytes
    → open_bytes cipher key_bytes ≡ ok bytes
    → Utf8.decode bytes none ≡ ok text
    → decrypt_text cipher key ≡ ok text
unfolding decrypt_text
decrypt_text-open_bytes text key key_bytes bytes [] pos k o d = absurd (omega arith)
decrypt_text-open_bytes text key key_bytes bytes (c ∷ cipher) pos k o d = rw (k, o, d) refl

-- For a text of code units and a key that UTF-8 can encode, encryption succeeds, and decryption
-- under the same key gives the text back, if the text has fewer than 2 ^ 31 bytes.
pub decrypt_text-encrypt_text :
    (text key bytes key_bytes : Text)
    → IsText text
    → Utf8.encode text ≡ ok bytes
    → Utf8.encode key ≡ ok key_bytes
    → length bytes < 2 ^ 31
    → (cipher : Text) × (encrypt_text text key ≡ ok cipher) × (decrypt_text cipher key ≡ ok text)
unfolding encrypt_text
decrypt_text-encrypt_text [] key bytes key_bytes t e k small =
    ([], refl, unfold decrypt_text in refl)
decrypt_text-encrypt_text (c ∷ text) key bytes key_bytes t e k small =
    let h = encode-IsBytes (c ∷ text) bytes t e in
    let pos : 0 < length bytes = omega (arith, length-encode (c ∷ text) bytes t e) in
    (
      sealed bytes key_bytes,
      rw (e, k) (seal_bytes_lem bytes key_bytes),
      decrypt_text-open_bytes (c ∷ text) key key_bytes bytes (sealed bytes key_bytes)
          (length-sealed bytes key_bytes h pos) k (open_bytes-sealed bytes key_bytes h pos small)
          (utf8_decode-encode (c ∷ text) bytes t e),
    )
