-- ===== src/Sdk/Words.antt =====
-- jsScript/webmssdk.js, lines 4216 to 4240 and 4250 to 4254: texts of bytes as arrays of 32-bit
-- words and back, and the filling of a key. A word stands for its 32-bit pattern.
pub mod RoundTrip
mod Tests
use douyin_live.Prelude.{
  ℕ, ◌+◌, ◌-◌, ◌*◌, ◌/◌, ◌%◌, ◌^◌, Bool, true, false, ◌||◌, List, [], ◌∷◌, ◌++◌, Option, none, some,
  ltb, leb, if◌then◌else◌, length, get_or, take, replicate, bit_and, bit_or,
}
use douyin_live.Sdk.Text.{Text}

-- `word |= c << shift`; an entry of a new array counts as 0.
unfoldable pub shift_in : ℕ → ℕ → ℕ → ℕ
shift_in word shift c = bit_or word (c * 2 ^ shift % 2 ^ 32)

-- The loop of `_0x183951`: four characters for a word.
unfoldable pub words_of : Text → List ℕ
words_of [] = []
words_of (a ∷ []) = shift_in 0 0 a ∷ []
words_of (a ∷ b ∷ []) = shift_in (shift_in 0 0 a) 8 b ∷ []
words_of (a ∷ b ∷ c ∷ []) = shift_in (shift_in (shift_in 0 0 a) 8 b) 16 c ∷ []
words_of (a ∷ b ∷ c ∷ d ∷ text) =
    shift_in (shift_in (shift_in (shift_in 0 0 a) 8 b) 16 c) 24 d ∷ words_of text

-- `_0x183951(text, with_length)`
unfoldable pub to_words : Text → Bool → List ℕ
to_words text with_length = words_of text ++ (if with_length then length text % 2 ^ 32 ∷ [] else [])

-- The four characters of a word.
unfoldable pub chars_of : ℕ → Text
chars_of w =
    bit_and 255 w
    ∷ bit_and (w / 2 ^ 8) 255
    ∷ bit_and (w / 2 ^ 16) 255
    ∷ bit_and (w / 2 ^ 24) 255
    ∷ []

unfoldable pub join_chars : List ℕ → Text
join_chars [] = []
join_chars (w ∷ words) = chars_of w ++ join_chars words

-- `_0x75d5b3(words, true)`: the last word is the length of the text, and `none` is the `null` for a
-- length that does not fit the array. A word from 2 ^ 31 on is a negative number, which passes the
-- test in an array of one word if it is -3 or more, and then `substring` gives the empty text. From
-- the empty array the missing length makes the empty text.
unfoldable pub to_text_with_length : List ℕ → Option Text
to_text_with_length [] = some []
to_text_with_length (w ∷ words) =
    let given = get_or (w ∷ words) (length words) 0 in
    let bytes = length words * 4 in
    if leb (2 ^ 31) given
    then (if ltb (given + 3) (bytes + 2 ^ 32) then none else some [])
    else if ltb (given + 3) bytes || ltb bytes given
    then none
    else some (take given (join_chars (w ∷ words)))

-- `_0x75d5b3(words, with_length)`
unfoldable pub to_text : List ℕ → Bool → Option Text
to_text words true = to_text_with_length words
to_text words false = some (join_chars words)

-- `_0x231484`: a key of fewer than four words gets more entries, which count as 0.
unfoldable pub fill_key : List ℕ → List ℕ
fill_key key = key ++ replicate (4 - length key) 0
