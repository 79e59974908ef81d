-- ===== src/Sdk/Packer/Groups.antt =====
-- The text of words is the base-64 coding of their bytes.
use douyin_live.Prelude.{
  ℕ, ◌+◌, ◌*◌, ◌/◌, ◌%◌, ◌^◌, ◌<◌, ◌≡◌, refl, ◌∙◌, ap, ap₂, true, List, [], ◌∷◌, ◌++◌, bit_or,
  length, all_below, all_below_sound, and_mask, or_fields, arith, All,
}
use douyin_live.Sdk.Text.{Text, codes, same_text, same_text_sound}
use douyin_live.Sdk.Base64
use douyin_live.Sdk.Base64.{char_at, group}
use douyin_live.Sdk.Base64.Group.{digit₁_lem, digit₂_lem, digit₃_lem, digit₄_lem, group_lem}
use douyin_live.Sdk.Packer.{sextet_char, five_chars, first, pack, pack_all}

-- The standard alphabet with other last characters.
abbrev pub packer_alphabet : Text
packer_alphabet = codes "ABCDEFGHIJKLMNOPQRSTUVWXYZabcdefghijklmnopqrstuvwxyz0123456789-."

-- The bytes of a word, the first byte the highest.
abbrev pub bytes_of_word : ℕ → Text
bytes_of_word w = w / 2 ^ 24 ∷ w / 2 ^ 16 % 2 ^ 8 ∷ w / 2 ^ 8 % 2 ^ 8 ∷ w % 2 ^ 8 ∷ []

abbrev pub bytes_of_words : List ℕ → Text
bytes_of_words [] = []
bytes_of_words (w ∷ words) = bytes_of_word w ++ bytes_of_words words

same_char : (n : ℕ) → n < 64 → char_at packer_alphabet n ≡ sextet_char n ∷ []
same_char n h =
    let test = λ (n : ℕ). same_text (char_at packer_alphabet n) (sextet_char n ∷ []) in
    let checked : all_below 64 test ≡ true =
      unfold all_below same_text char_at sextet_char in refl in
    same_text_sound _ _ (all_below_sound 64 test n checked h)

same_sextet : (x y : ℕ) → x % 64 ≡ y % 64 → sextet_char x ≡ sextet_char y
unfolding sextet_char
same_sextet x y e = rw (and_mask 6 x, and_mask 6 y, e) refl

digit_char :
    (digit g k : ℕ) (rest : Text)
    → digit ≡ g / 2 ^ k % 64
    → char_at packer_alphabet digit ++ rest ≡ sextet_char (g / 2 ^ k) ∷ rest
digit_char digit g k rest e =
    let small : digit < 64 = omega arith in
    ap (λ l. l ++ rest) (same_char digit small)
    ∙ ap (λ c. c ∷ rest) (same_sextet digit (g / 2 ^ k) (omega arith))

-- Three bytes make four characters.
group_chars :
    (a b c : ℕ) (rest : Text)
    → a < 256
    → b < 256
    → c < 256
    → let g = a * 2 ^ 16 + b * 2 ^ 8 + c in
      Base64.encode packer_alphabet (codes "=") (a ∷ b ∷ c ∷ rest)
      ≡ sextet_char (g / 2 ^ 18)
        ∷ sextet_char (g / 2 ^ 12)
        ∷ sextet_char (g / 2 ^ 6)
        ∷ sextet_char g
        ∷ Base64.encode packer_alphabet (codes "=") rest
unfolding Base64.encode
group_chars a b c rest p q r =
    let g = a * 2 ^ 16 + b * 2 ^ 8 + c in
    let last : char_at packer_alphabet (Base64.digit₄ g)
          ++ Base64.encode packer_alphabet (codes "=") rest
        ≡ sextet_char g ∷ Base64.encode packer_alphabet (codes "=") rest =
      digit_char (Base64.digit₄ g) g 0 (Base64.encode packer_alphabet (codes "=") rest)
        (digit₄_lem g ∙ omega arith)
      ∙ ap (λ (n : ℕ). sextet_char n ∷ Base64.encode packer_alphabet (codes "=") rest)
          (omega arith) in
    rw (group_lem a b c p q r) (
      rw (last) (
        digit_char (Base64.digit₁ g) g 18 _ (digit₁_lem g)
        ∙ ap (λ l. sextet_char (g / 2 ^ 18) ∷ l)
            (digit_char (Base64.digit₂ g) g 12 _ (digit₂_lem g)
              ∙ ap (λ l. sextet_char (g / 2 ^ 12) ∷ l)
                  (digit_char (Base64.digit₃ g) g 6 _ (digit₃_lem g)))))

or_kept : (x w : ℕ) → w < 2 ^ 32 → bit_or (x * 2 ^ 28) (w / 2 ^ 4) ≡ x * 2 ^ 28 + w / 2 ^ 4
or_kept x w h = or_fields 28 x (w / 2 ^ 4) (omega arith)

or_kept' : (x w : ℕ) → w < 2 ^ 32 → bit_or (x * 2 ^ 26) (w / 2 ^ 6) ≡ x * 2 ^ 26 + w / 2 ^ 6
or_kept' x w h = or_fields 26 x (w / 2 ^ 6) (omega arith)

-- Characters of numbers that agree in their last six bits.
chars_same :
    (x y : ℕ) (s t : Text)
    → x % 64 ≡ y % 64
    → s ≡ t
    → ◌≡◌ {A = Text} (sextet_char x ∷ s) (sextet_char y ∷ t)
chars_same x y s t e f = ap₂ ◌∷◌ (same_sextet x y e) f

-- Three words make sixteen characters.
three_words :
    (u v w : ℕ) (rest : Text)
    → u < 2 ^ 32
    → v < 2 ^ 32
    → w < 2 ^ 32
    → five_chars (u / 2 ^ 2)
        ++ (five_chars (bit_or (u * 2 ^ 28) (v / 2 ^ 4))
            ++ ((five_chars (bit_or (v * 2 ^ 26) (w / 2 ^ 6)) ++ sextet_char w ∷ [])
                ++ Base64.encode packer_alphabet (codes "=") rest))
      ≡ Base64.encode packer_alphabet
          (codes "=")
          (bytes_of_word u ++ (bytes_of_word v ++ (bytes_of_word w ++ rest)))
unfolding five_chars
three_words u v w rest a b c =
    let back = Base64.encode packer_alphabet (codes "=") rest in
    let e₁ =
      group_chars (u / 2 ^ 24) (u / 2 ^ 16 % 2 ^ 8) (u / 2 ^ 8 % 2 ^ 8)
        (u % 2 ^ 8 ∷ (bytes_of_word v ++ (bytes_of_word w ++ rest))) (omega arith) (omega arith)
        (omega arith) in
    let e₂ =
      group_chars (u % 2 ^ 8) (v / 2 ^ 24) (v / 2 ^ 16 % 2 ^ 8)
        (v / 2 ^ 8 % 2 ^ 8 ∷ v % 2 ^ 8 ∷ (bytes_of_word w ++ rest)) (omega arith) (omega arith)
        (omega arith) in
    let e₃ =
      group_chars (v / 2 ^ 8 % 2 ^ 8) (v % 2 ^ 8) (w / 2 ^ 24)
        (w / 2 ^ 16 % 2 ^ 8 ∷ w / 2 ^ 8 % 2 ^ 8 ∷ w % 2 ^ 8 ∷ rest) (omega arith) (omega arith)
        (omega arith) in
    let e₄ =
      group_chars (w / 2 ^ 16 % 2 ^ 8) (w / 2 ^ 8 % 2 ^ 8) (w % 2 ^ 8) rest (omega arith)
        (omega arith) (omega arith) in
    rw (or_kept u v b, or_kept' v w c, e₁, e₂, e₃, e₄)
      (chars_same _ _ _ _ (omega arith) (
        chars_same _ _ _ _ (omega arith) (
          chars_same _ _ _ _ (omega arith) (
            chars_same _ _ _ _ (omega arith) (
              chars_same _ _ _ _ (omega arith) (
                chars_same _ _ _ _ (omega arith) (
                  chars_same _ _ _ _ (omega arith) (
                    chars_same _ _ _ _ (omega arith) (
                      chars_same _ _ _ _ (omega arith) (
                        chars_same _ _ _ _ (omega arith) (
                          chars_same _ _ _ _ (omega arith) (
                            chars_same _ _ _ _ (omega arith) (
                              chars_same _ _ _ _ (omega arith) (
                                chars_same _ _ _ _ (omega arith) (
                                  chars_same _ _ _ _ (omega arith)
                                    (chars_same _ _ _ _ (omega arith) refl))))))))))))))))

-- Words in threes, packed from the first function on, make the base-64 coding of their bytes with
-- the packer's alphabet, and the first function is next again.
pub pack_all-encode :
    (kept : ℕ) (words : List ℕ)
    → All (λ w. w < 2 ^ 32) words
    → length words % 3 ≡ 0
    → let (text, packer) = pack_all words (record { turn = first; kept = kept }) in
      (text ≡ Base64.encode packer_alphabet (codes "=") (bytes_of_words words))
      × (packer.turn ≡ first)
unfolding pack_all pack
pack_all-encode kept [] all whole = (unfold Base64.encode in refl, refl)
pack_all-encode kept (u ∷ []) all whole = absurd (omega arith)
pack_all-encode kept (u ∷ v ∷ []) all whole = absurd (omega arith)
pack_all-encode kept (u ∷ v ∷ w ∷ words) all whole =
    let (text, turn) = pack_all-encode v words all.1.1.1 (omega arith) in
    (
      ap
            (λ l.
              five_chars (u / 2 ^ 2)
              ++ (five_chars (bit_or (u * 2 ^ 28) (v / 2 ^ 4))
                  ++ ((five_chars (bit_or (v * 2 ^ 26) (w / 2 ^ 6)) ++ sextet_char w ∷ []) ++ l)))
            text
          ∙ three_words u v w (bytes_of_words words) all.0 all.1.0 all.1.1.0,
      turn,
    )
