-- ===== src/Sdk/Words/Tests.antt =====
-- Runs of the packing of texts into words.
use douyin_live.Prelude.{◌≡◌, refl, true, false, [], ◌∷◌, some, none, arith}
use douyin_live.Sdk.Text.{codes}
use douyin_live.Sdk.Words.RoundTrip.{to_text-to_words, words_of-join_chars}
use douyin_live.Sdk.Words.{
  shift_in, to_words, words_of, to_text, to_text_with_length, chars_of, join_chars,
}

to_words_sample : to_words (codes "abcde") true ≡ 0x64636261 ∷ 0x65 ∷ 5 ∷ []
unfolding to_words words_of shift_in
to_words_sample = refl

to_text_sample : to_text (0x64636261 ∷ 0x65 ∷ 5 ∷ []) true ≡ some (codes "abcde")
unfolding to_text to_text_with_length chars_of join_chars
to_text_sample = refl

to_text_too_long : to_text (0x64636261 ∷ 5 ∷ []) true ≡ none
unfolding to_text to_text_with_length chars_of join_chars
to_text_too_long = refl

to_text_minus_one : to_text (0xffffffff ∷ []) true ≡ some []
unfolding to_text to_text_with_length chars_of join_chars
to_text_minus_one = refl

to_text_plain : to_text (0x64636261 ∷ []) false ≡ some (codes "abcd")
unfolding to_text chars_of join_chars
to_text_plain = refl

to_text-to_words_run : to_text (to_words (codes "abcde") true) true ≡ some (codes "abcde")
to_text-to_words_run = to_text-to_words (codes "abcde") (omega arith) (omega arith)

words_of-join_chars_run : words_of (join_chars (0x64636261 ∷ 7 ∷ [])) ≡ 0x64636261 ∷ 7 ∷ []
words_of-join_chars_run = words_of-join_chars (0x64636261 ∷ 7 ∷ []) (omega arith)
