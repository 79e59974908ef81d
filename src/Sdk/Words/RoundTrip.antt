-- ===== src/Sdk/Words/RoundTrip.antt =====
-- The two directions between texts of bytes and arrays of words.
use douyin_live.Prelude.{
  ℕ, suc, ◌+◌, ◌*◌, ◌/◌, ◌%◌, ◌^◌, ◌<◌, ◌≤◌, ◌≡◌, refl, ◌∙◌, ap, ap₂, true, false, ◌||◌, List, [],
  ◌∷◌, ◌++◌, some, arith, ltb, leb, length, get_or, take, length-append, bit_or, mask_and, and_mask,
  or_comm, or_fields,
}
use douyin_live.Sdk.Text.{Text, IsBytes}
use douyin_live.Sdk.Xxtea.Step.{IsWords}
use douyin_live.Sdk.Words.{
  shift_in, words_of, to_words, chars_of, join_chars, to_text_with_length, to_text,
}

-- A new field above the ones that are there is added.
shift_in_lem : (k w c : ℕ) → w < 2 ^ k → c * 2 ^ k < 2 ^ 32 → shift_in w k c ≡ c * 2 ^ k + w
unfolding shift_in
shift_in_lem k w c hw hc =
    let whole : c * 2 ^ k % 2 ^ 32 ≡ c * 2 ^ k = omega arith in
    ap (bit_or w) whole ∙ (or_comm w (c * 2 ^ k) ∙ or_fields k c w hw)

one : (a : ℕ) → a < 2 ^ 8 → shift_in 0 0 a ≡ a
one a ha = shift_in_lem 0 0 a (omega arith) (omega arith) ∙ omega arith

two : (a b : ℕ) → a < 2 ^ 8 → b < 2 ^ 8 → shift_in (shift_in 0 0 a) 8 b ≡ b * 2 ^ 8 + a
two a b ha hb = rw (one a ha) (shift_in_lem 8 a b ha (omega arith))

three :
    (a b c : ℕ)
    → a < 2 ^ 8
    → b < 2 ^ 8
    → c < 2 ^ 8
    → shift_in (shift_in (shift_in 0 0 a) 8 b) 16 c ≡ c * 2 ^ 16 + (b * 2 ^ 8 + a)
three a b c ha hb hc =
    rw (two a b ha hb) (shift_in_lem 16 (b * 2 ^ 8 + a) c (omega arith) (omega arith))

four :
    (a b c d : ℕ)
    → a < 2 ^ 8
    → b < 2 ^ 8
    → c < 2 ^ 8
    → d < 2 ^ 8
    → shift_in (shift_in (shift_in (shift_in 0 0 a) 8 b) 16 c) 24 d
      ≡ d * 2 ^ 24 + (c * 2 ^ 16 + (b * 2 ^ 8 + a))
four a b c d ha hb hc hd =
    rw (three a b c ha hb hc)
      (shift_in_lem 24 (c * 2 ^ 16 + (b * 2 ^ 8 + a)) d (omega arith) (omega arith))

-- The characters of a word are its digits to the base 256.
chars_of_lem :
    (w : ℕ)
    → chars_of w ≡ w % 2 ^ 8 ∷ w / 2 ^ 8 % 2 ^ 8 ∷ w / 2 ^ 16 % 2 ^ 8 ∷ w / 2 ^ 24 % 2 ^ 8 ∷ []
unfolding chars_of
chars_of_lem w =
    rw (mask_and 8 w, and_mask 8 (w / 2 ^ 8), and_mask 8 (w / 2 ^ 16), and_mask 8 (w / 2 ^ 24)) refl

chars_of-four :
    (a b c d : ℕ)
    → a < 2 ^ 8
    → b < 2 ^ 8
    → c < 2 ^ 8
    → d < 2 ^ 8
    → chars_of (d * 2 ^ 24 + (c * 2 ^ 16 + (b * 2 ^ 8 + a))) ≡ a ∷ b ∷ c ∷ d ∷ []
chars_of-four a b c d ha hb hc hd =
    let w = d * 2 ^ 24 + (c * 2 ^ 16 + (b * 2 ^ 8 + a)) in
    let ea : w % 2 ^ 8 ≡ a = omega arith in
    let eb : w / 2 ^ 8 % 2 ^ 8 ≡ b = omega arith in
    let ec : w / 2 ^ 16 % 2 ^ 8 ≡ c = omega arith in
    let ed : w / 2 ^ 24 % 2 ^ 8 ≡ d = omega arith in
    chars_of_lem w ∙ ap₂ ◌∷◌ ea (ap₂ ◌∷◌ eb (ap₂ ◌∷◌ ec (ap (λ t. t ∷ []) ed)))

-- The first characters of the array are the text, whatever follows.
take-join_chars :
    (text : Text) (rest : List ℕ)
    → IsBytes text
    → take (length text) (join_chars (words_of text ++ rest)) ≡ text
unfolding words_of join_chars
take-join_chars [] rest h = refl
take-join_chars (a ∷ []) rest (ha, h) =
    let chars : chars_of a ≡ a ∷ 0 ∷ 0 ∷ 0 ∷ [] =
      ap chars_of (omega arith)
      ∙ chars_of-four a 0 0 0 ha (omega arith) (omega arith) (omega arith) in
    rw (one a ha, chars) refl
take-join_chars (a ∷ b ∷ []) rest (ha, (hb, h)) =
    let chars : chars_of (b * 2 ^ 8 + a) ≡ a ∷ b ∷ 0 ∷ 0 ∷ [] =
      ap chars_of (omega arith) ∙ chars_of-four a b 0 0 ha hb (omega arith) (omega arith) in
    rw (two a b ha hb, chars) refl
take-join_chars (a ∷ b ∷ c ∷ []) rest (ha, (hb, (hc, h))) =
    let chars : chars_of (c * 2 ^ 16 + (b * 2 ^ 8 + a)) ≡ a ∷ b ∷ c ∷ 0 ∷ [] =
      ap chars_of (omega arith) ∙ chars_of-four a b c 0 ha hb hc (omega arith) in
    rw (three a b c ha hb hc, chars) refl
take-join_chars (a ∷ b ∷ c ∷ d ∷ text) rest (ha, (hb, (hc, (hd, h)))) =
    rw (four a b c d ha hb hc hd, chars_of-four a b c d ha hb hc hd)
      (ap (λ l. a ∷ b ∷ c ∷ d ∷ l) (take-join_chars text rest h))

pub length-words_of : (text : Text) → length (words_of text) ≡ (length text + 3) / 4
unfolding words_of
length-words_of [] = refl
length-words_of (a ∷ []) = refl
length-words_of (a ∷ b ∷ []) = refl
length-words_of (a ∷ b ∷ c ∷ []) = refl
length-words_of (a ∷ b ∷ c ∷ d ∷ text) = omega (arith, length-words_of text)

pub words_of-IsWords : (text : Text) → IsBytes text → IsWords (words_of text)
unfolding words_of
words_of-IsWords [] h = tt
words_of-IsWords (a ∷ []) (ha, h) = (omega (arith, one a ha), tt)
words_of-IsWords (a ∷ b ∷ []) (ha, (hb, h)) = (omega (arith, two a b ha hb), tt)
words_of-IsWords (a ∷ b ∷ c ∷ []) (ha, (hb, (hc, h))) = (omega (arith, three a b c ha hb hc), tt)
words_of-IsWords (a ∷ b ∷ c ∷ d ∷ text) (ha, (hb, (hc, (hd, h)))) =
    (omega (arith, four a b c d ha hb hc hd), words_of-IsWords text h)

get_or-last : (xs : List ℕ) (y : ℕ) → get_or (xs ++ y ∷ []) (length xs) 0 ≡ y
get_or-last [] y = refl
get_or-last (x ∷ xs) y = get_or-last xs y

-- The array of a word or more, its last word the length.
with_length_lem :
    (words : List ℕ) (given : ℕ)
    → given < 2 ^ 31
    → given ≤ length words * 4
    → length words * 4 ≤ given + 3
    → to_text_with_length (words ++ given ∷ [])
      ≡ some (take given (join_chars (words ++ given ∷ [])))
unfolding to_text_with_length
with_length_lem [] given a b c = let zero_given : given ≡ 0 = omega arith in rw zero_given refl
with_length_lem (w ∷ words) given a b c =
    let last = get_or-last (w ∷ words) given in
    let len : length (words ++ given ∷ []) ≡ suc (length words) =
      length-append words (given ∷ []) ∙ omega arith in
    let small : leb (2 ^ 31) given ≡ false = ground arith in
    let fits : (ltb (given + 3) (suc (length words) * 4) || ltb (suc (length words) * 4) given)
        ≡ false =
      ground arith in
    rw (len, last, small, fits) refl

-- A text of fewer than 2 ^ 31 bytes that is packed with its length is read back.
pub to_text-to_words :
    (text : Text)
    → IsBytes text
    → length text < 2 ^ 31
    → to_text (to_words text true) true ≡ some text
unfolding to_text to_words
to_text-to_words text h small =
    let n = length text in
    let whole : n % 2 ^ 32 ≡ n = omega arith in
    let words = length-words_of text in
    rw whole (
      with_length_lem (words_of text) n small (omega arith) (omega arith)
      ∙ ap some (take-join_chars text (n ∷ []) h))

word_digits :
    (w : ℕ)
    → w < 2 ^ 32
    → w / 2 ^ 24 % 2 ^ 8 * 2 ^ 24
        + (w / 2 ^ 16 % 2 ^ 8 * 2 ^ 16 + (w / 2 ^ 8 % 2 ^ 8 * 2 ^ 8 + w % 2 ^ 8))
      ≡ w
word_digits w h = omega arith

words_of-chars_of :
    (w : ℕ) (text : Text) → w < 2 ^ 32 → words_of (chars_of w ++ text) ≡ w ∷ words_of text
unfolding words_of
words_of-chars_of w text h = rw (chars_of_lem w) (
    ap (λ t. t ∷ words_of text)
      (four (w % 2 ^ 8) (w / 2 ^ 8 % 2 ^ 8) (w / 2 ^ 16 % 2 ^ 8) (w / 2 ^ 24 % 2 ^ 8) (omega arith)
          (omega arith) (omega arith) (omega arith)
        ∙ word_digits w h))

-- Words that are written as characters are packed to the same words.
pub words_of-join_chars : (words : List ℕ) → IsWords words → words_of (join_chars words) ≡ words
unfolding words_of join_chars
words_of-join_chars [] h = refl
words_of-join_chars (w ∷ words) (hw, h) =
    words_of-chars_of w (join_chars words) hw ∙ ap (λ l. w ∷ l) (words_of-join_chars words h)
