-- ===== src/Sdk/Browser/Fonts/Bits.antt =====
-- The number of the fonts: bit `i` of it is the test of font `i`, for the first 30 fonts.
use native.Mathlib.Nat.{pow-suc, one-mul, one-le-pow}
use douyin_live.Prelude.{
  ℕ, zero, suc, ◌+◌, ◌*◌, ◌%◌, ◌^◌, ◌<◌, ◌≤◌, ◌≡◌, refl, sym, ◌∙◌, ap, Bool, true, false, List, [],
  ◌∷◌, ltb, length, length-map, if◌then◌else◌, all_below, all_below_sound, ◌==◌, ==_iff, inl, inr,
  lt→ltb, ltb→lt, ◌-◌, ◌/◌, bit_or, or_comm, or_fields, arith, map, Bool-cases,
}
use douyin_live.Sdk.Text.{Text}
use douyin_live.Sdk.Browser.Fonts.{
  Size, fonts, is_installed, generic_fonts, add_fonts, bit, hex_digit, hex_from, hex_text,
  fonts_text,
}

-- The sum of the weights of the tests that hold, each twice the one before.
weigh : ℕ → List Bool → ℕ
weigh p [] = 0
weigh p (b ∷ tests) = (if b then p else 0) + weigh (p * 2) tests

weigh-double : (p : ℕ) (tests : List Bool) → weigh (p * 2) tests ≡ weigh p tests * 2
unfolding weigh
weigh-double p [] = refl
weigh-double p (true ∷ tests) = omega (arith, weigh-double (p * 2) tests)
weigh-double p (false ∷ tests) = omega (arith, weigh-double (p * 2) tests)

weigh_injective :
    (tests others : List Bool)
    → length tests ≡ length others
    → weigh 1 tests ≡ weigh 1 others
    → tests ≡ others
unfolding weigh
weigh_injective [] [] e h = refl
weigh_injective [] (c ∷ others) e h = absurd (omega (arith, e))
weigh_injective (b ∷ tests) [] e h = absurd (omega (arith, e))
weigh_injective (true ∷ tests) (true ∷ others) e h =
    ap (λ l. true ∷ l)
      (weigh_injective tests others (omega (arith, e))
        (omega (arith, h, weigh-double 1 tests, weigh-double 1 others)))
weigh_injective (false ∷ tests) (false ∷ others) e h =
    ap (λ l. false ∷ l)
      (weigh_injective tests others (omega (arith, e))
        (omega (arith, h, weigh-double 1 tests, weigh-double 1 others)))
weigh_injective (true ∷ tests) (false ∷ others) e h =
    absurd (omega (arith, h, weigh-double 1 tests, weigh-double 1 others))
weigh_injective (false ∷ tests) (true ∷ others) e h =
    absurd (omega (arith, h, weigh-double 1 tests, weigh-double 1 others))

bits_table : all_below 30 (λ i. bit i == 2 ^ i) ≡ true
unfolding all_below
bits_table = refl

bit_power : (i : ℕ) → i < 30 → bit i ≡ 2 ^ i
bit_power i small = (==_iff _ (2 ^ i)).0 (all_below_sound 30 _ i bits_table small)

-- A bit above all of a number is added to it.
add_bit : (i mask : ℕ) → i < 30 → mask < 2 ^ i → bit_or mask (bit i) ≡ mask + 2 ^ i
add_bit i mask small below =
    let joined : bit_or (2 ^ i) mask ≡ 2 ^ i + mask = rw one-mul at (or_fields i 1 mask below) in
    rw (bit_power i small) (omega (arith, or_comm mask (2 ^ i)))

module _ (measure : Text → Size) where
  pub installed : List Text → List Bool
  installed list = map (λ font. is_installed measure font generic_fonts) list

  -- Below 2 ^ i the number already has the tests before font `i`.
  add_fonts-weigh :
      (i mask : ℕ) (list : List Text)
      → i + length list ≤ 30
      → mask < 2 ^ i
      → add_fonts measure i mask list ≡ mask + weigh (2 ^ i) (installed list)
  unfolding add_fonts weigh installed
  add_fonts-weigh i mask [] e below = omega arith
  add_fonts-weigh i mask (font ∷ later) e below =
      let early : ltb i 30 ≡ true = lt→ltb i 30 (omega arith) in
      let power : 2 ^ suc i ≡ 2 ^ i * 2 = pow-suc 2 i in
      elim (Bool-cases (is_installed measure font generic_fonts)) [
        | inl held ↦
            rw (held, early, add_bit i mask (omega arith) below)
              (omega (
                arith,
                rw power at
                    (add_fonts-weigh (suc i) (mask + 2 ^ i) later (omega arith) (omega arith)),
              ))
        | inr missed ↦ rw missed (
            omega
              (arith, rw power at (add_fonts-weigh (suc i) mask later (omega arith) (omega arith))))
      ]

  mask-weigh :
      (list : List Text) → length list ≤ 30 → add_fonts measure 0 0 list ≡ weigh 1 (installed list)
  mask-weigh list e = omega (arith, add_fonts-weigh 0 0 list (omega arith) (omega arith))

-- The value of a digit, and the number that hexadecimal digits stand for.
digit_value : ℕ → ℕ
digit_value c = if ltb c b'a' then c - b'0' else c - b'a' + 10

number_from : ℕ → Text → ℕ
number_from n [] = n
number_from n (c ∷ text) = number_from (n * 16 + digit_value c) text

digit_value-hex_digit : (d : ℕ) → d < 16 → digit_value (hex_digit d) ≡ d
unfolding digit_value
digit_value-hex_digit d small = ground arith

number_from-hex_from :
    (rounds n : ℕ) (text : Text)
    → n < 16 ^ rounds
    → number_from 0 (hex_from rounds n text) ≡ number_from n text
unfolding hex_from number_from
number_from-hex_from zero n text small = ap (λ v. number_from v text) (omega arith)
number_from-hex_from (suc rounds) n text small = elim (Bool-cases (ltb n 16)) [
  | inl one ↦
      let e : digit_value (hex_digit n) ≡ n = digit_value-hex_digit n (ltb→lt n 16 one) in
      rw one (ap (λ v. number_from v text) (omega arith))
  | inr more ↦
      let power : 16 ^ suc rounds ≡ 16 ^ rounds * 16 = pow-suc 16 rounds in
      let e : digit_value (hex_digit (n % 16)) ≡ n % 16 =
        digit_value-hex_digit (n % 16) (omega arith) in
      rw more (
        number_from-hex_from rounds (n / 16) (hex_digit (n % 16) ∷ text) (omega arith)
        ∙ ap (λ v. number_from v text) (omega arith))
]

weigh_lt : (k : ℕ) (tests : List Bool) → length tests ≤ k → weigh 1 tests < 2 ^ k
unfolding weigh
weigh_lt k [] e = one-le-pow k 2 (omega arith)
weigh_lt zero (b ∷ tests) e = absurd (omega arith)
weigh_lt (suc k) (true ∷ tests) e =
    omega (arith, weigh_lt k tests (omega arith), weigh-double 1 tests, pow-suc 2 k)
weigh_lt (suc k) (false ∷ tests) e =
    omega (arith, weigh_lt k tests (omega arith), weigh-double 1 tests, pow-suc 2 k)

module _ (measure : Text → Size) (list : List Text) (few : length list ≤ 30) where
  same_length : length (installed measure list) ≡ length list
  unfolding installed
  same_length = length-map list (λ font. is_installed measure font generic_fonts)

  hex_text-installed :
      number_from 0 (hex_text (add_fonts measure 0 0 list)) ≡ weigh 1 (installed measure list)
  unfolding hex_text number_from
  hex_text-installed =
      let small : weigh 1 (installed measure list) < 2 ^ 30 =
        weigh_lt 30 (installed measure list) (rw same_length few) in
      let mask : add_fonts measure 0 0 list ≡ weigh 1 (installed measure list) =
        mask-weigh measure list few in
      number_from-hex_from 8 (add_fonts measure 0 0 list) [] (rw mask (omega arith)) ∙ mask

-- Equal reports on the fonts, from pages that have a body, come from equal answers to the 29
-- tests, whatever sizes the two documents give.
pub fonts_text_injective :
    (measure others : Text → Size)
    → fonts_text measure true ≡ fonts_text others true
    → installed measure fonts ≡ installed others fonts
unfolding fonts_text
fonts_text_injective measure others e =
    let few : length fonts ≤ 30 = omega arith in
    weigh_injective (installed measure fonts) (installed others fonts)
      (same_length measure fonts few ∙ sym (same_length others fonts few))
      (sym (hex_text-installed measure fonts few)
        ∙ ap (number_from 0) e
        ∙ hex_text-installed others fonts few)
