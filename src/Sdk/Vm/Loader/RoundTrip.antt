-- ===== src/Sdk/Vm/Loader/RoundTrip.antt =====
-- The loader takes back what is assembled.
use douyin_live.Prelude.{
  ℕ, suc, ◌*◌, ◌/◌, ◌%◌, ◌^◌, ◌<◌, ◌≡◌, refl, ◌∙◌, ap, List, [], ◌∷◌, ◌++◌, some, arith, length,
  take, drop, bit_and, bit_xor, All, xor_comm, xor_cancel, xor_lt, mask_and, append_assoc,
}
use douyin_live.Prelude.Result.{ok}
use douyin_live.Sdk.Text.{Text, IsText, IsBytes, char_unit}
use douyin_live.Sdk.Vm.Loader.{
  Program, is_digit, digit_value, parse_from, parse_hex, read_hex, read_key, read_code, read_chars,
  read_strings, read_body, load,
}
use douyin_live.Sdk.Vm.Loader.Assemble.{
  hex_text, varint, code_text, chars_text, strings_text, key_text, assemble, IsLoadable,
}
use douyin_live.Sdk.Vm.Loader.Numbers.{
  drop-hex_text, parse_hex_lem, read_hex_lem, read_varint-varint,
}

drop_byte : (b n : ℕ) (text : Text) → drop (suc (suc n)) (hex_text 2 b ++ text) ≡ drop n text
unfolding hex_text
drop_byte b n text = refl

read_code-code_text :
    (code : List ℕ) (rest : Text)
    → IsBytes code
    → (read_code (length code) (code_text code ++ rest) ≡ some code)
      × (drop (2 * length code) (code_text code ++ rest) ≡ rest)
unfolding read_code code_text
read_code-code_text [] rest h = (refl, refl)
read_code-code_text (b ∷ code) rest (hb, h) =
    let more = code_text code ++ rest in
    let (ih, behind) = read_code-code_text code rest h in
    let twice : 2 * suc (length code) ≡ suc (suc (2 * length code)) = omega arith in
    rw (append_assoc (hex_text 2 b) (code_text code) rest) (
      rw (parse_hex_lem 1 b more (omega arith), drop-hex_text 2 b more, ih, read_code) refl,
      rw twice (drop_byte b (2 * length code) more ∙ behind),
    )

-- A character under the key.
hidden : (key c : ℕ) → c < 2 ^ 16 → char_unit (bit_xor key (bit_xor c key)) ≡ c
hidden key c h =
    let shown : bit_xor key (bit_xor c key) ≡ c = xor_comm key (bit_xor c key) ∙ xor_cancel c key in
    rw shown (omega arith)

module _ (key : ℕ) (small : key < 2 ^ 8) where
  read_chars-chars_text :
      (chars rest : Text)
      → IsText chars
      → read_chars key (length chars) (chars_text key chars ++ rest) ≡ (chars, rest)
  unfolding read_chars chars_text
  read_chars-chars_text [] rest h = refl
  read_chars-chars_text (c ∷ chars) rest (hc, h) =
      let v = bit_xor c key in
      let wide : v < 2 ^ 16 = xor_lt 16 c key hc (omega arith) in
      let more = chars_text key chars ++ rest in
      let (size, number, behind) = read_varint-varint v more (omega arith) in
      rw (append_assoc (varint v) (chars_text key chars) rest, number, behind)
        (rw (read_chars-chars_text chars rest h, hidden key c hc) refl)

  read_strings-strings_text :
      (strings : List Text)
      → All IsText strings
      → All (λ s. length s < 2 ^ 22) strings
      → read_strings key (length strings) (strings_text key strings) ≡ strings
  unfolding read_strings strings_text
  read_strings-strings_text [] h k = refl
  read_strings-strings_text (s ∷ strings) (hs, h) (ks, k) =
      let more = chars_text key s ++ strings_text key strings in
      let (size, number, behind) = read_varint-varint (length s) more ks in
      rw (number, behind, read_chars-chars_text s (strings_text key strings) hs)
        (ap (λ l. s ∷ l) (read_strings-strings_text strings h k))

-- The key from its four bytes.
key_text-append :
    (key : ℕ) (rest : Text)
    → key_text key ++ rest
      ≡ hex_text 2 (key % 4)
        ++ (hex_text 2 (key / 4 % 4)
            ++ (hex_text 2 (key / 16 % 4) ++ (hex_text 2 (key / 64 % 4) ++ rest)))
unfolding key_text hex_text
key_text-append key rest = refl

crumb : (c : ℕ) (text : Text) → bit_and 3 (read_hex 2 (hex_text 2 (c % 4) ++ text)) ≡ c % 4
crumb c text =
    ap (bit_and 3) (read_hex_lem 1 (c % 4) text (omega arith)) ∙ (mask_and 2 (c % 4) ∙ omega arith)

read_key-key_text :
    (key : ℕ) (rest : Text) → key < 2 ^ 8 → read_key 4 0 (key_text key ++ rest) ≡ key
unfolding read_key
read_key-key_text key rest h =
    let last = hex_text 2 (key / 64 % 4) ++ rest in
    let third = hex_text 2 (key / 16 % 4) ++ last in
    let second = hex_text 2 (key / 4 % 4) ++ third in
    rw
      (
        key_text-append key rest,
        drop-hex_text 2 (key % 4) second,
        drop-hex_text 2 (key / 4 % 4) third,
        drop-hex_text 2 (key / 16 % 4) last,
        crumb key second,
        crumb (key / 4) third,
        crumb (key / 16) last,
        crumb (key / 64) rest,
      )
      (omega arith)

-- What stands behind the code.
abbrev tail_text : ℕ → Program → Text
tail_text key p = hex_text 4 (length p.strings) ++ strings_text key p.strings

module _ (key unread unread' : ℕ) (p : Program) where
  abbrev body : Text
  body = code_text p.code ++ tail_text key p

  abbrev from_size : Text
  from_size = hex_text 8 (length p.code) ++ body

  abbrev from_entry : Text
  from_entry = hex_text 8 p.entry ++ (hex_text 8 unread' ++ from_size)

  -- The header's fields stand where the loader looks for them.
  drop-assemble :
      (drop 24 (assemble key unread unread' p) ≡ key_text key ++ from_entry)
      × (drop 32 (assemble key unread unread' p) ≡ from_entry)
      × (drop 48 (assemble key unread unread' p) ≡ from_size)
      × (drop 56 (assemble key unread unread' p) ≡ body)
  unfolding assemble key_text hex_text
  drop-assemble = (refl, refl, refl, refl)

  magic_lem :
      let text = assemble key unread unread' p in
      (parse_hex (take 8 text) ≡ some 1213091658)
      × (parse_hex (take 8 (drop 8 text)) ≡ some 1077891651)
      × (parse_hex (take 2 (drop 16 text)) ≡ some 0)
  unfolding assemble parse_hex parse_from is_digit digit_value
  magic_lem = (refl, refl, refl)

  read_body-assemble :
      IsLoadable p → key < 2 ^ 8 → read_body key (assemble key unread unread' p) ≡ some p
  unfolding read_body
  read_body-assemble ok_p small =
      let (at_key, at_entry, at_size, at_body) = drop-assemble in
      let size : read_hex 8 from_size ≡ length p.code =
        read_hex_lem 7 (length p.code) body ok_p.code_size in
      let entry = parse_hex_lem 7 p.entry (hex_text 8 unread' ++ from_size) ok_p.entry_word in
      let (code, behind) = read_code-code_text p.code (tail_text key p) ok_p.code_bytes in
      let count =
        read_hex_lem 3 (length p.strings) (strings_text key p.strings) ok_p.string_count in
      let strings =
        read_strings-strings_text key small p.strings ok_p.string_texts ok_p.string_sizes in
      rw
        (
          at_entry,
          entry,
          at_size,
          at_body,
          size,
          code,
          at_size,
          at_body,
          size,
          behind,
          count,
          drop-hex_text 4 (length p.strings) (strings_text key p.strings),
          strings,
          read_body,
        )
        refl

  -- The text of a program that the format can hold is loaded as that program, under any key of a
  -- byte and whatever stands in the parts of the header that are not read.
  pub load-assemble : IsLoadable p → key < 2 ^ 8 → load (assemble key unread unread' p) ≡ ok p
  unfolding load
  load-assemble ok_p small =
      let text = assemble key unread unread' p in
      let (at_key, at_entry, at_size, at_body) = drop-assemble in
      let magic : (parse_hex (take 8 text) ≡ some 1213091658)
          × (parse_hex (take 8 (drop 8 text)) ≡ some 1077891651)
          × (parse_hex (take 2 (drop 16 text)) ≡ some 0) =
        magic_lem in
      rw
        (
          magic.0,
          magic.1,
          magic.2,
          at_key,
          read_key-key_text key from_entry small,
          read_body-assemble ok_p small,
        )
        refl
