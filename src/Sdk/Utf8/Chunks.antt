-- ===== src/Sdk/Utf8/Chunks.antt =====
-- The decoder that works in chunks gives the text of the one that does not.
use douyin_live.Prelude.{
  ℕ, zero, suc, ◌≡◌, refl, sym, ◌∙◌, ap, Bool, true, false, [], ◌∷◌, ◌++◌, append_assoc, append-nil,
  ◌⊎◌, inl, inr, Bool-cases, ltb, length,
}
use douyin_live.Prelude.Result.{Result, ok, err}
use douyin_live.Sdk.Text.{Text}
use douyin_live.Sdk.Utf8.{
  Fault, Units, one, two, next, prepend, decode_units, hand_over, decode_chunks,
}

hand_over_lem : (chunk : Text) → (hand_over chunk).0 ++ (hand_over chunk).1 ≡ chunk
unfolding hand_over
hand_over_lem chunk = elim (Bool-cases (ltb 32766 (length chunk))) [
  | inl full ↦ rw full (append-nil chunk)
  | inr room ↦ rw room refl
]

prepend-prepend :
    (a b : Text) (r : Result Fault Text) → prepend a (prepend b r) ≡ prepend (a ++ b) r
unfolding prepend
prepend-prepend a b (ok more) = ap ok (sym (append_assoc a b more))
prepend-prepend a b (err e) = refl

step_cases :
    (n : Result Fault (Units × Text))
    → ((e : Fault) × (n ≡ err e))
      ⊎ (((c : ℕ) × (rest : Text) × (n ≡ ok (one c, rest)))
          ⊎ ((high : ℕ) × (low : ℕ) × (rest : Text) × (n ≡ ok (two high low, rest))))
step_cases (err e) = inl (e, refl)
step_cases (ok (one c, rest)) = inr (inl (c, rest, refl))
step_cases (ok (two high low, rest)) = inr (inr (high, low, rest, refl))

-- Handing a chunk over and going on gives the chunk and what follows.
continue :
    (chunk : Text) (rest : Text → Result Fault Text) (tail : Result Fault Text)
    → ((c : Text) → rest c ≡ prepend c tail)
    → prepend (hand_over chunk).0 (rest (hand_over chunk).1) ≡ prepend chunk tail
continue chunk rest tail ih = rw (ih (hand_over chunk).1) (
    prepend-prepend (hand_over chunk).0 (hand_over chunk).1 tail
    ∙ ap (λ (c : Text). prepend c tail) (hand_over_lem chunk))

-- With a chunk that is filled in part, the chunked loop puts that part before what the plain loop
-- decodes, errors included.
pub decode_chunks-decode_units :
    (left : ℕ) (behind : Bool) (chunk text : Text)
    → decode_chunks left behind chunk text ≡ prepend chunk (decode_units left behind text)
unfolding decode_chunks decode_units
decode_chunks-decode_units zero behind chunk text = ap ok (sym (append-nil chunk))
decode_chunks-decode_units (suc left) true chunk text =
    decode_chunks-decode_units left false chunk text
decode_chunks-decode_units (suc left) false chunk [] = ap ok (sym (append-nil chunk))
decode_chunks-decode_units (suc left) false chunk (b ∷ text) = elim (step_cases (next b text)) [
  | inl (e, fault) ↦ rw (fault, decode_chunks, decode_units) refl
  | inr (inl (c, rest, unit)) ↦
      rw (unit, decode_chunks, decode_units)
        (continue (chunk ++ c ∷ []) (λ full. decode_chunks left false full rest)
            (decode_units left false rest) (λ full. decode_chunks-decode_units left false full rest)
          ∙ sym (prepend-prepend chunk (c ∷ []) (decode_units left false rest)))
  | inr (inr (high, low, rest, pair)) ↦
      rw (pair, decode_chunks, decode_units)
        (continue (chunk ++ high ∷ low ∷ []) (λ full. decode_chunks left true full rest)
            (decode_units left true rest) (λ full. decode_chunks-decode_units left true full rest)
          ∙ sym (prepend-prepend chunk (high ∷ low ∷ []) (decode_units left true rest)))
]
