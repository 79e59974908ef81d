-- ===== src/Sdk/Utf8/RoundTrip.antt =====
-- The decoder takes back what the encoder makes.
use douyin_live.Prelude.{
  ℕ, zero, suc, ◌+◌, ◌*◌, ◌/◌, ◌%◌, ◌^◌, ◌<◌, ◌≤◌, ◌≡◌, refl, ◌∙◌, ap, true, false, not, ◌||◌,
  Option, [], ◌∷◌, ◌++◌, none, some, arith, inl, inr, ◌⊎◌, Bool-cases, ltb, ◌==◌, length,
}
use douyin_live.Prelude.Result.{Result, ok, err}
use douyin_live.Sdk.Text.{Text, IsText, IsBytes}
use douyin_live.Sdk.Utf8.{
  Fault, one, malformed, all_units_below, bytes₄, join_pair, is_surrogate, is_pair, encode_unit,
  prepend, encode_loop, encode, next, decode_units, decode_chunks, decode,
}
use douyin_live.Sdk.Utf8.Bytes.{
  bytes₂_lem, bytes₃_lem, bytes₄_lem, join_pair_lem, next-bytes₂, next-bytes₃, next-bytes₄,
}
use douyin_live.Sdk.Utf8.Chunks.{decode_chunks-decode_units}

-- The bytes of a text, sequence by sequence: a unit that is no surrogate, or a pair.
data Encodes : Text → Text → Type 0 where
  done : Encodes [] []
  unit :
      (c : ℕ) {text bytes all : Text}
      → c < 2 ^ 16
      → Encodes text bytes
      → all ≡ encode_unit c ++ bytes
      → Encodes (c ∷ text) all
  pair :
      (high low : ℕ) {text bytes all : Text}
      → 55296 ≤ high
      → high < 56320
      → 56320 ≤ low
      → low ≤ 57343
      → Encodes text bytes
      → all ≡ bytes₄ (join_pair high low) ++ bytes
      → Encodes (high ∷ low ∷ text) all

abbrev with_pending : Option ℕ → Text → Text
with_pending none text = text
with_pending (some high) text = high ∷ text

abbrev IsPending : Option ℕ → Type 0
IsPending none = Unit
IsPending (some high) = is_surrogate high ≡ true

prepend-eq-ok :
    (bytes all : Text) (r : Result Fault Text)
    → prepend bytes r ≡ ok all
    → (more : Text) × (r ≡ ok more) × (all ≡ bytes ++ more)
unfolding prepend
prepend-eq-ok bytes all (ok more) h = (more, refl, cc)
prepend-eq-ok bytes all (err e) h = cc

is_pair_lem :
    (high low : ℕ)
    → is_surrogate high ≡ true
    → is_pair high low ≡ true
    → (55296 ≤ high) × (high < 56320) × (56320 ≤ low) × (low ≤ 57343)
unfolding is_surrogate is_pair
is_pair_lem high low s p = (ground arith, ground arith, ground arith, ground arith)

-- The loop succeeds only with the bytes of the sequences.
encode_loop-Encodes :
    (pending : Option ℕ) (text all : Text)
    → IsPending pending
    → IsText text
    → encode_loop pending text ≡ ok all
    → Encodes (with_pending pending text) all
unfolding encode_loop
encode_loop-Encodes none [] all p t h = let e : [] ≡ all = cc in rw (← e) done
encode_loop-Encodes (some high) [] all p t h = cc
encode_loop-Encodes none (c ∷ text) all p (tc, t) h = elim (Bool-cases (is_surrogate c)) [
  | inl s ↦ encode_loop-Encodes (some c) text all s t (rw (s, encode_loop) at h)
  | inr s ↦
      let (more, e, split) =
        prepend-eq-ok (encode_unit c) all (encode_loop none text) (rw (s, encode_loop) at h) in
      unit c tc (encode_loop-Encodes none text more tt t e) split
]
encode_loop-Encodes (some high) (c ∷ text) all p (tc, t) h = elim (Bool-cases (is_pair high c)) [
  | inl s ↦
      let (more, e, split) =
        prepend-eq-ok (bytes₄ (join_pair high c)) all (encode_loop none text)
          (rw (s, encode_loop) at h) in
      let (a, b, d, f) = is_pair_lem high c p s in
      pair high c a b d f (encode_loop-Encodes none text more tt t e) split
  | inr s ↦ let fault : err malformed ≡ ok all = rw (s, encode_loop) at h in cc
]

-- The bytes of one unit.
encode_unit-cases :
    (c : ℕ)
    → c < 2 ^ 16
    → ((c < 128) × (encode_unit c ≡ c ∷ []))
      ⊎ (((128 ≤ c) × (c < 2048) × (encode_unit c ≡ (192 + c / 2 ^ 6) ∷ (128 + c % 2 ^ 6) ∷ []))
          ⊎ ((2048 ≤ c)
              × (encode_unit c
                  ≡ (224 + c / 2 ^ 12) ∷ (128 + c / 2 ^ 6 % 2 ^ 6) ∷ (128 + c % 2 ^ 6) ∷ [])))
unfolding encode_unit
encode_unit-cases c h = elim (Bool-cases (ltb c 128)) [
  | inl small ↦ inl (ground arith, rw small refl)
  | inr large ↦ elim (Bool-cases (ltb c 2048)) [
    | inl small ↦
        let below : c < 2048 = ground arith in
        inr (inl (ground arith, below, rw (large, small) (bytes₂_lem c below)))
    | inr larger ↦ inr (inr (ground arith, rw (large, larger) (bytes₃_lem c h)))
  ]
]

pair_bytes :
    (high low : ℕ)
    → let p = 65536 + (high % 2 ^ 10 * 2 ^ 10 + low % 2 ^ 10) in
      bytes₄ (join_pair high low)
      ≡ (240 + p / 2 ^ 18)
        ∷ (128 + p / 2 ^ 12 % 2 ^ 6)
        ∷ (128 + p / 2 ^ 6 % 2 ^ 6)
        ∷ (128 + p % 2 ^ 6)
        ∷ []
pair_bytes high low =
    let p = 65536 + (high % 2 ^ 10 * 2 ^ 10 + low % 2 ^ 10) in
    ap bytes₄ (join_pair_lem high low) ∙ bytes₄_lem p (omega arith)

next-ascii : (c : ℕ) (rest : Text) → c < 128 → next c rest ≡ ok (one c, rest)
unfolding next
next-ascii c rest h = ground arith

prepend-ok :
    (a b text : Text) (r : Result Fault Text) → r ≡ ok b → a ++ b ≡ text → prepend a r ≡ ok text
unfolding prepend
prepend-ok a b text r e f = rw e (ap ok f)

-- The plain loop reads the units back, with room for them.
decode_units-Encodes :
    {text all : Text} (left : ℕ)
    → Encodes text all
    → length text ≤ left
    → decode_units left false all ≡ ok text
unfolding decode_units
decode_units-Encodes zero done h = refl
decode_units-Encodes (suc left) done h = refl
decode_units-Encodes zero (unit c _ _ _) h = absurd (omega arith)
decode_units-Encodes zero (pair high low _ _ _ _ _ _) h = absurd (omega arith)
decode_units-Encodes (suc left) (unit c {text = t} {bytes = more} tc rest split) h =
    let read : prepend (c ∷ []) (decode_units left false more) ≡ ok (c ∷ t) =
      prepend-ok (c ∷ []) t (c ∷ t) (decode_units left false more)
        (decode_units-Encodes left rest (omega arith)) refl in
    rw split (elim (encode_unit-cases c tc) [
      | inl (small, e) ↦
          let step : next c more ≡ ok (one c, more) = next-ascii c more small in
          rw (e, step, decode_units) read
      | inr (inl (from, below, e)) ↦ rw (e, next-bytes₂ c more from below, decode_units) read
      | inr (inr (from, e)) ↦ rw (e, next-bytes₃ c more tc, decode_units) read
    ])
decode_units-Encodes (suc zero) (pair high low _ _ _ _ _ _) h = absurd (omega arith)
decode_units-Encodes (suc (suc left)) (pair high low {text = t} {bytes = more} a b d f rest split)
      h =
    let read : prepend (high ∷ low ∷ []) (decode_units left false more) ≡ ok (high ∷ low ∷ t) =
      prepend-ok (high ∷ low ∷ []) t (high ∷ low ∷ t) (decode_units left false more)
        (decode_units-Encodes left rest (omega arith)) refl in
    rw (split, pair_bytes high low, next-bytes₄ high low more a b d f, decode_units) read

-- Every entry is a byte.
bytes_below : {text all : Text} → Encodes text all → all_units_below 256 all ≡ true
unfolding all_units_below
bytes_below done = refl
bytes_below (unit c tc rest split) = rw split (elim (encode_unit-cases c tc) [
  | inl (small, e) ↦ rw e (ground (arith, bytes_below rest))
  | inr (inl (from, below, e)) ↦ rw e (ground (arith, bytes_below rest))
  | inr (inr (from, e)) ↦ rw e (ground (arith, bytes_below rest))
])
bytes_below (pair high low a b d f rest split) =
    rw (split, pair_bytes high low) (ground (arith, bytes_below rest))

-- The bytes are ASCII exactly when the text is.
ascii_same :
    {text all : Text} → Encodes text all → all_units_below 128 all ≡ all_units_below 128 text
unfolding all_units_below
ascii_same done = refl
ascii_same (unit c tc rest split) = rw split (elim (encode_unit-cases c tc) [
  | inl (small, e) ↦ rw e (ground (arith, ascii_same rest))
  | inr (inl (from, below, e)) ↦ rw e (ground arith)
  | inr (inr (from, e)) ↦ rw e (ground arith)
])
ascii_same (pair high low a b d f rest split) = rw (split, pair_bytes high low) (ground arith)

length_le : {text all : Text} → Encodes text all → length text ≤ length all
length_le done = omega arith
length_le (unit c tc rest split) = rw split (elim (encode_unit-cases c tc) [
  | inl (small, e) ↦ rw e (omega (arith, length_le rest))
  | inr (inl (from, below, e)) ↦ rw e (omega (arith, length_le rest))
  | inr (inr (from, e)) ↦ rw e (omega (arith, length_le rest))
])
length_le (pair high low a b d f rest split) =
    rw (split, pair_bytes high low) (omega (arith, length_le rest))

decode_ascii : (text : Text) → all_units_below 128 text ≡ true → decode text none ≡ ok text
unfolding decode
decode_ascii [] h = refl
decode_ascii (c ∷ text) h =
    let some_units : (length (c ∷ text) == 0) ≡ false = ground arith in rw (some_units, h) refl

not_empty : (text : Text) → all_units_below 128 text ≡ false → (length text == 0) ≡ false
unfolding all_units_below
not_empty [] h = cc
not_empty (c ∷ text) h = ground arith

decode_long :
    (text all : Text)
    → Encodes text all
    → all_units_below 128 text ≡ false
    → decode all none ≡ ok text
unfolding decode
decode_long text all enc wide =
    let loop = decode_units-Encodes (length all) enc (length_le enc) in
    let chunks : decode_chunks (length all) false [] all ≡ ok text =
      decode_chunks-decode_units (length all) false [] all ∙ prepend-ok [] text text _ loop refl in
    let some_bytes : (length all == 0) ≡ false = not_empty all (ascii_same enc ∙ wide) in
    let bytes : (all_units_below 128 all || not (all_units_below 256 all)) ≡ false =
      rw (ascii_same enc, wide, bytes_below enc) refl in
    rw (some_bytes, bytes)
      (elim (Bool-cases (ltb (length all) 65535)) [
        | inl short ↦ rw short loop
        | inr long ↦ rw long chunks
      ])

-- Whatever the encoder makes of a text of code units, the decoder without a limit gives that text
-- back, by either of its loops.
pub utf8_decode-encode :
    (text bytes : Text) → IsText text → encode text ≡ ok bytes → decode bytes none ≡ ok text
unfolding encode
utf8_decode-encode text bytes t h = elim (Bool-cases (all_units_below 128 text)) [
  | inl ascii ↦
      let same : ok text ≡ ok bytes = rw ascii at h in
      let e : text ≡ bytes = cc in rw (← e) (decode_ascii text ascii)
  | inr wide ↦
      let loop : encode_loop none text ≡ ok bytes = rw wide at h in
      decode_long text bytes (encode_loop-Encodes none text bytes tt t loop) wide
]

below-IsBytes : (text : Text) → all_units_below 256 text ≡ true → IsBytes text
unfolding all_units_below
below-IsBytes [] h = tt
below-IsBytes (c ∷ text) h = (ground arith, below-IsBytes text (ground arith))

below_more : (text : Text) → all_units_below 128 text ≡ true → all_units_below 256 text ≡ true
unfolding all_units_below
below_more [] h = refl
below_more (c ∷ text) h = ground (arith, below_more text)

-- What the encoder makes are bytes, at least as many as there were units.
pub encode-IsBytes : (text bytes : Text) → IsText text → encode text ≡ ok bytes → IsBytes bytes
unfolding encode
encode-IsBytes text bytes t h = elim (Bool-cases (all_units_below 128 text)) [
  | inl ascii ↦
      let same : ok text ≡ ok bytes = rw ascii at h in
      let e : text ≡ bytes = cc in rw (← e) (below-IsBytes text (below_more text ascii))
  | inr wide ↦
      let loop : encode_loop none text ≡ ok bytes = rw wide at h in
      below-IsBytes bytes (bytes_below (encode_loop-Encodes none text bytes tt t loop))
]

pub length-encode :
    (text bytes : Text) → IsText text → encode text ≡ ok bytes → length text ≤ length bytes
unfolding encode
length-encode text bytes t h = elim (Bool-cases (all_units_below 128 text)) [
  | inl ascii ↦
      let same : ok text ≡ ok bytes = rw ascii at h in
      let e : text ≡ bytes = cc in rw (← e) (omega arith)
  | inr wide ↦
      let loop : encode_loop none text ≡ ok bytes = rw wide at h in
      length_le (encode_loop-Encodes none text bytes tt t loop)
]
