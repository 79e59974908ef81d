-- ===== src/Sdk/Hashes/Digits.antt =====
-- Identifiers and their check digits.
use douyin_live.Prelude.{
  ℕ, zero, suc, ◌+◌, ◌/◌, ◌%◌, ◌^◌, ◌≤◌, ◌<◌, ◌≡◌, refl, sym, ◌∙◌, ap, true, false, ◌&&◌, List, [],
  ◌∷◌, ◌++◌, Option, none, some, arith, ltb, leb, ◌==◌, Bool-cases, inl, inr, ◌⊎◌, bit_and, bit_or,
  length, take, drop, take-append_length, drop-append_length, length-append, all_below,
  all_below_sound,
}
use douyin_live.Sdk.Text.{Text, same_text_refl}
use douyin_live.Sdk.Hashes.{
  hash_step, hash_units, decimal_from, decimal, hex_char, fill_pattern, id_pattern, random_id,
  has_check_digits, add_check_digits, client_id,
}

hash_step-lt : (h c : ℕ) → hash_step h c < 2 ^ 32
unfolding hash_step
hash_step-lt h c = omega arith

pub hash_units-lt : (h : ℕ) (text : Text) → h < 2 ^ 32 → hash_units h text < 2 ^ 32
unfolding hash_units
hash_units-lt h [] small = small
hash_units-lt h (c ∷ text) small = hash_units-lt (hash_step h c) text (hash_step-lt h c)

-- Each digit is put before those that are there.
decimal_from-length :
    (left n : ℕ) (digits : Text) → length digits ≤ length (decimal_from left n digits)
unfolding decimal_from
decimal_from-length zero n digits = omega arith
decimal_from-length (suc left) n digits =
    ground (arith, decimal_from-length left (n / 10) ((48 + n % 10) ∷ digits))

decimal_more :
    (left n : ℕ) (digits : Text)
    → 0 < n
    → decimal_from (suc left) n digits ≡ decimal_from left (n / 10) ((48 + n % 10) ∷ digits)
unfolding decimal_from
decimal_more left n digits h = ground arith

decimal_done : (left : ℕ) (digits : Text) → decimal_from left 0 digits ≡ digits
unfolding decimal_from
decimal_done zero digits = refl
decimal_done (suc left) digits = refl

two_digits : (n : ℕ) → 10 ≤ n → 2 ≤ length (decimal n)
unfolding decimal
two_digits n h =
    let more = decimal_from-length 8 (n / 10 / 10) ((48 + n / 10 % 10) ∷ (48 + n % 10) ∷ []) in
    let positive : (n == 0) ≡ false = ground arith in
    rw
      (
        positive,
        decimal_more 9 n [] (omega arith),
        decimal_more 8 (n / 10) ((48 + n % 10) ∷ []) (omega arith),
      )
      more

one_digit : (n : ℕ) → n < 10 → length (decimal n) ≡ 1
unfolding decimal
one_digit n h = elim (Bool-cases (n == 0)) [
  | inl none_left ↦ rw none_left refl
  | inr positive ↦
      let over : n / 10 ≡ 0 = omega arith in
      rw (positive, decimal_more 9 n [] (ground arith), over, decimal_done 9 ((48 + n % 10) ∷ []))
        refl
]

take_long {ℓ} : {A : Type ℓ} (n : ℕ) (s t : List A) → length s ≡ n → take n (s ++ t) ≡ s
take_long n s t e = rw (← e) (take-append_length s t)

drop_long {ℓ} : {A : Type ℓ} (n : ℕ) (s t : List A) → length s ≡ n → drop n (s ++ t) ≡ t
drop_long n s t e = rw (← e) (drop-append_length s t)

take_over {ℓ} :
    {A : Type ℓ} (m n : ℕ) (s t : List A) → m ≡ length s + n → take m (s ++ t) ≡ s ++ take n t
take_over m n [] t e = let same : m ≡ n = omega arith in rw same refl
take_over zero n (a ∷ s) t e = absurd (omega arith)
take_over (suc m) n (a ∷ s) t e = ap (λ l. a ∷ l) (take_over m n s t (omega arith))

-- With 32 characters before them, the check digits are the first two of the hash.
checked_parts :
    (id : Text)
    → length id ≡ 32
    → (take 32 (add_check_digits id) ≡ id)
      × (drop 32 (add_check_digits id) ≡ take 2 (decimal (hash_units 0 id)))
unfolding add_check_digits
checked_parts id e =
    let digits = take 2 (decimal (hash_units 0 id)) in
    rw (take_over 34 2 id (decimal (hash_units 0 id)) (omega arith))
      (take_long 32 id digits e, drop_long 32 id digits e)

take_two {ℓ} : {A : Type ℓ} (s : List A) → length (take 2 s) ≤ 2
take_two [] = omega arith
take_two (a ∷ []) = omega arith
take_two (a ∷ b ∷ s) = omega arith

take_two_same {ℓ} : {A : Type ℓ} (s : List A) → length s ≤ 2 → take 2 s ≡ s
take_two_same [] h = refl
take_two_same (a ∷ []) h = refl
take_two_same (a ∷ b ∷ []) h = refl
take_two_same (a ∷ b ∷ c ∷ s) h = absurd (omega arith)

take_two_full {ℓ} : {A : Type ℓ} (s : List A) → 2 ≤ length s → length (take 2 s) ≡ 2
take_two_full [] h = absurd (omega arith)
take_two_full (a ∷ []) h = absurd (omega arith)
take_two_full (a ∷ b ∷ s) h = omega arith

-- An identifier of 32 characters with its check digits added has them, exactly when its hash has
-- two digits or more.
pub has_check_digits-add_check_digits :
    (id : Text) → length id ≡ 32 → has_check_digits (add_check_digits id) ≡ leb 10 (hash_units 0 id)
unfolding has_check_digits
has_check_digits-add_check_digits id e =
    let (front, back) = checked_parts id e in
    let digits = decimal (hash_units 0 id) in
    let whole : length (add_check_digits id) ≡ 32 + length (take 2 digits) =
      unfold add_check_digits in
      ap length (take_over 34 2 id digits (omega arith))
      ∙ (length-append id (take 2 digits) ∙ omega arith) in
    rw
      (front, back, take_two_same (take 2 digits) (take_two digits), same_text_refl (take 2 digits))
      (elim (Bool-cases (leb 10 (hash_units 0 id))) [
        | inl large ↦
            let full = take_two_full digits (two_digits (hash_units 0 id) (ground arith)) in
            let size : length (add_check_digits id) ≡ 34 = omega arith in rw (large, size) refl
        | inr small ↦
            let short = one_digit (hash_units 0 id) (ground arith) in
            let same = ap length (take_two_same digits (omega arith)) in
            let size : (length (add_check_digits id) == 34) ≡ false = ground arith in
            rw (small, size) refl
      ])

-- The identifier of a client has its check digits, and a later call finds it valid and keeps it, if
-- the new one has 32 characters and a hash of two digits or more.
pub client_id_stable :
    (stored : Option Text) (fresh : Text)
    → length fresh ≡ 32
    → 10 ≤ hash_units 0 fresh
    → (has_check_digits (client_id stored fresh).0 ≡ true)
      × ((later : Text)
          → client_id (some (client_id stored fresh).0) later ≡ ((client_id stored fresh).0, false))
unfolding client_id
client_id_stable none fresh size two =
    let valid : has_check_digits (add_check_digits fresh) ≡ true =
      has_check_digits-add_check_digits fresh size ∙ ground arith in
    (valid, λ later. rw valid refl)
client_id_stable (some stored) fresh size two = elim (Bool-cases (has_check_digits stored)) [
  | inl valid ↦ rw valid (valid, λ later. rw valid refl)
  | inr invalid ↦
      let valid : has_check_digits (add_check_digits fresh) ≡ true =
        has_check_digits-add_check_digits fresh size ∙ ground arith in
      rw invalid (valid, λ later. rw valid refl)
]

-- A character of the pattern: a digit of `x` is any, one of `y` is 8, 9, a or b.
abbrev pub Fills : ℕ → ℕ → Type 0
Fills p c =
    ((p ≡ b'x') × ((n : ℕ) × (n < 16) × (c ≡ hex_char n)))
    ⊎ (((p ≡ b'y') × ((n : ℕ) × (7 < n) × (n < 12) × (c ≡ hex_char n))) ⊎ (p ≡ c))

abbrev pub FillsAll : Text → Text → Type 0
FillsAll [] [] = Unit
FillsAll (p ∷ pattern) (c ∷ text) = Fills p c × FillsAll pattern text
FillsAll _ _ = ⊥

variant : (r : ℕ) → r < 16 → (7 < bit_or (bit_and 3 r) 8) × (bit_or (bit_and 3 r) 8 < 12)
variant r h =
    let test = λ (r : ℕ). ltb 7 (bit_or (bit_and 3 r) 8) && ltb (bit_or (bit_and 3 r) 8) 12 in
    let checked : all_below 16 test ≡ true = unfold all_below in refl in
    let passed = all_below_sound 16 test r checked h in (ground arith, ground arith)

fill_pattern-FillsAll :
    (pattern : Text) (draw : ℕ → ℕ) (i : ℕ)
    → ((k : ℕ) → draw k < 16)
    → FillsAll pattern (fill_pattern pattern draw i)
unfolding fill_pattern
fill_pattern-FillsAll [] draw i below = tt
fill_pattern-FillsAll (p ∷ pattern) draw i below = elim (Bool-cases (p == b'x')) [
  | inl x ↦ rw x (
    inl (ground arith, (draw i, below i, refl)),
    fill_pattern-FillsAll pattern draw (suc i) below,
  )
  | inr other ↦ elim (Bool-cases (p == b'y')) [
    | inl y ↦
        let (from, to) = variant (draw i) (below i) in
        rw (other, y)
          (
            inr (inl (ground arith, (bit_or (bit_and 3 (draw i)) 8, from, to, refl))),
            fill_pattern-FillsAll pattern draw (suc i) below,
          )
    | inr fixed ↦ rw (other, fixed) (inr (inr refl), fill_pattern-FillsAll pattern draw i below)
  ]
]

FillsAll-length : (pattern text : Text) → FillsAll pattern text → length pattern ≡ length text
FillsAll-length [] [] h = refl
FillsAll-length [] (c ∷ text) h = absurd h
FillsAll-length (p ∷ pattern) [] h = absurd h
FillsAll-length (p ∷ pattern) (c ∷ text) h = ap suc (FillsAll-length pattern text h.1)

-- A random identifier has 32 characters that fill the pattern: hexadecimal digits, with the version
-- 4 and the variant 8, 9, a or b in their places.
pub random_id-FillsAll :
    (draw : ℕ → ℕ)
    → ((k : ℕ) → draw k < 16)
    → FillsAll id_pattern (random_id draw) × (length (random_id draw) ≡ 32)
unfolding random_id
random_id-FillsAll draw below =
    let fills = fill_pattern-FillsAll id_pattern draw 0 below in
    (fills, sym (FillsAll-length id_pattern (fill_pattern id_pattern draw 0) fills))
