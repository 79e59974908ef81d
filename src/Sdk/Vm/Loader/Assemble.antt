-- ===== src/Sdk/Vm/Loader/Assemble.antt =====
-- The text of a program: the inverse of the loader.
use douyin_live.Prelude.{
  ℕ, zero, suc, ◌+◌, ◌/◌, ◌%◌, ◌^◌, ◌<◌, List, [], ◌∷◌, ◌++◌, ltb, if◌then◌else◌, length, get_or,
  bit_xor, All,
}
use douyin_live.Sdk.Text.{Text, codes, IsText, IsBytes}
use douyin_live.Sdk.Hex.{hex_digits}
use douyin_live.Sdk.Vm.Loader.{Program}

-- A number in so many digits.
unfoldable pub hex_text : ℕ → ℕ → Text
hex_text zero n = []
hex_text (suc k) n = get_or hex_digits (n / 16 ^ k % 16) 0 ∷ hex_text k n

-- A number below 2 ^ 22 in one, two or three bytes, with 0, 10 or 11 as its first bits.
unfoldable pub varint : ℕ → Text
varint n =
    if ltb n 128
    then hex_text 2 n
    else if ltb n (2 ^ 14)
    then hex_text 2 (128 + n / 2 ^ 8) ++ hex_text 2 (n % 2 ^ 8)
    else hex_text 2 (192 + n / 2 ^ 16) ++ hex_text 4 (n % 2 ^ 16)

unfoldable pub code_text : List ℕ → Text
code_text [] = []
code_text (b ∷ code) = hex_text 2 b ++ code_text code

unfoldable pub chars_text : ℕ → Text → Text
chars_text key [] = []
chars_text key (c ∷ chars) = varint (bit_xor c key) ++ chars_text key chars

unfoldable pub strings_text : ℕ → List Text → Text
strings_text key [] = []
strings_text key (s ∷ strings) = varint (length s) ++ (chars_text key s ++ strings_text key strings)

-- The key in four bytes, two bits in each.
unfoldable pub key_text : ℕ → Text
key_text key =
    hex_text 2 (key % 4)
    ++ (hex_text 2 (key / 4 % 4) ++ (hex_text 2 (key / 16 % 4) ++ hex_text 2 (key / 64 % 4)))

-- The parts of the header that the loader does not read are three bytes and a word.
unfoldable pub assemble : ℕ → ℕ → ℕ → Program → Text
assemble key unread unread' p =
    codes "484e4f4a403f524300"
    ++ (hex_text 6 unread
        ++ (key_text key
            ++ (hex_text 8 p.entry
                ++ (hex_text 8 unread'
                    ++ (hex_text 8 (length p.code)
                        ++ (code_text p.code
                            ++ (hex_text 4 (length p.strings) ++ strings_text key p.strings)))))))

-- A program that the format can hold.
pub record IsLoadable (p : Program) : Type 0 where
  pub code_bytes : IsBytes p.code
  pub code_size : length p.code < 2 ^ 32
  pub entry_word : p.entry < 2 ^ 32
  pub string_count : length p.strings < 2 ^ 16
  pub string_texts : All IsText p.strings
  pub string_sizes : All (λ s. length s < 2 ^ 22) p.strings
