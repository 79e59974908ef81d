-- ===== src/Sdk/Storage/Switch.antt =====
-- The switch reads the word that was encrypted for it.
use douyin_live.Prelude.{
  ℕ, ◌/◌, ◌^◌, ◌<◌, ◌≡◌, ◌≢◌, refl, sym, ◌∙◌, ap, List, [], ◌∷◌, ◌++◌, some, arith, length, take,
  drop, take-append_length, drop-append_length, All-append, mask_and, and_mask,
}
use douyin_live.Prelude.Result.{Result, ok}
use douyin_live.Sdk.Text.{Text, IsText, IsBytes, codes, same_text}
use douyin_live.Sdk.Utf8
use douyin_live.Sdk.Words.{chars_of, join_chars}
use douyin_live.Sdk.Base64
use douyin_live.Sdk.Base64.{standard_alphabet}
use douyin_live.Sdk.Base64.RoundTrip.{decode-encode}
use douyin_live.Sdk.Xxtea
use douyin_live.Sdk.Cipher.{Fault, encrypt_text, decrypt_text, key_words}
use douyin_live.Sdk.Cipher.RoundTrip.{sealed, seal_bytes_lem, decrypt_text-encrypt_text}
use douyin_live.Sdk.Storage.{
  Area, open_area, absent, blocked, Web, switch_item, word_is_on, switch_key, is_switched_on,
}

chars_of-IsBytes : (w : ℕ) → IsBytes (chars_of w)
unfolding chars_of
chars_of-IsBytes w = (
  rw (mask_and 8 w) (omega arith),
  (
    rw (and_mask 8 (w / 2 ^ 8)) (omega arith),
    (rw (and_mask 8 (w / 2 ^ 16)) (omega arith), (rw (and_mask 8 (w / 2 ^ 24)) (omega arith), tt)),
  ),
)

join_chars-IsBytes : (words : List ℕ) → IsBytes (join_chars words)
unfolding join_chars
join_chars-IsBytes [] = tt
join_chars-IsBytes (w ∷ words) =
    All-append (λ c. c < 2 ^ 8) (chars_of w) (join_chars words) (chars_of-IsBytes w)
      (join_chars-IsBytes words)

-- A cipher text has bytes only.
encrypt_text-IsBytes :
    (text key bytes key_bytes cipher : Text)
    → Utf8.encode text ≡ ok bytes
    → Utf8.encode key ≡ ok key_bytes
    → encrypt_text text key ≡ ok cipher
    → IsBytes cipher
unfolding encrypt_text
encrypt_text-IsBytes [] key bytes key_bytes cipher e k h =
    let same : [] ≡ cipher = cc in rw (← same) tt
encrypt_text-IsBytes (c ∷ text) key bytes key_bytes cipher e k h =
    let made : encrypt_text (c ∷ text) key ≡ ok (sealed bytes key_bytes) =
      rw (e, k) (seal_bytes_lem bytes key_bytes) in
    let both : ◌≡◌ {A = Result Fault Text} (ok (sealed bytes key_bytes)) (ok cipher) =
      sym made ∙ h in
    let same : sealed bytes key_bytes ≡ cipher = cc in
    rw (← same) (join_chars-IsBytes (Xxtea.encrypt _ (key_words key_bytes)))

-- The item for a word: eight characters as the key, and the cipher text in base 64.
abbrev pub item_of : Text → Text → Text
item_of key cipher = key ++ Base64.encode standard_alphabet (codes "=") cipher

word_is_on-item_of :
    (word key bytes key_bytes cipher : Text)
    → length key ≡ 8
    → IsText word
    → Utf8.encode word ≡ ok bytes
    → Utf8.encode key ≡ ok key_bytes
    → length bytes < 2 ^ 31
    → encrypt_text word key ≡ ok cipher
    → word_is_on (item_of key cipher) ≡ same_text word (codes "on")
unfolding word_is_on
word_is_on-item_of word key bytes key_bytes cipher size t e k small made =
    let code = Base64.encode standard_alphabet (codes "=") cipher in
    let (sealed_word, seals, opens) =
      decrypt_text-encrypt_text word key bytes key_bytes t e k small in
    let both : ◌≡◌ {A = Result Fault Text} (ok sealed_word) (ok cipher) = sym seals ∙ made in
    let same : sealed_word ≡ cipher = cc in
    let head : take 8 (key ++ code) ≡ key =
      ap (λ n. take n (key ++ code)) (sym size) ∙ take-append_length key code in
    let tail : drop 8 (key ++ code) ≡ code =
      ap (λ n. drop n (key ++ code)) (sym size) ∙ drop-append_length key code in
    let bytes_back =
      decode-encode cipher (encrypt_text-IsBytes word key bytes key_bytes cipher e k made) in
    let opened : decrypt_text cipher key ≡ ok word = rw (← same) opens in
    rw (word_is_on, head, tail, bytes_back, opened) refl

module _ {S J : Type 0} (web : Web S J) (session : Area S) (local : S) (jar : J) where
  switched_at :
      (c : ℕ) (item : Text) (at : Area S)
      → at ≢ blocked
      → web.get_item switch_key local ≡ some (c ∷ item)
      → is_switched_on web (record { session = at; local = open_area local; jar = jar })
        ≡ word_is_on (c ∷ item)
  unfolding is_switched_on switch_item
  switched_at c item absent seen there = rw (is_switched_on, there) refl
  switched_at c item blocked seen there = absurd (seen refl)
  switched_at c item (open_area s) seen there = rw (is_switched_on, there) refl

  -- With the item of a word in the local storage, and a session that is not blocked, the switch is
  -- on exactly when the word is `on`. Key and word are texts that UTF-8 can encode, the key of
  -- eight characters and the word of fewer than 2 ^ 31 bytes.
  pub is_switched_on-item_of :
      (word key bytes key_bytes cipher : Text)
      → session ≢ blocked
      → web.get_item switch_key local ≡ some (item_of key cipher)
      → length key ≡ 8
      → IsText word
      → Utf8.encode word ≡ ok bytes
      → Utf8.encode key ≡ ok key_bytes
      → length bytes < 2 ^ 31
      → encrypt_text word key ≡ ok cipher
      → is_switched_on web (record { session = session; local = open_area local; jar = jar })
        ≡ same_text word (codes "on")
  unfolding is_switched_on
  is_switched_on-item_of word [] bytes key_bytes cipher seen there size t e k small made =
      absurd (omega (arith, size))
  is_switched_on-item_of word (c ∷ key) bytes key_bytes cipher seen there size t e k small made =
      switched_at c _ session seen there
      ∙ word_is_on-item_of word (c ∷ key) bytes key_bytes cipher size t e k small made
