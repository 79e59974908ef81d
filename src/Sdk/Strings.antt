-- ===== src/Sdk/Strings.antt =====
-- Methods of JavaScript strings that several parts of the script call, on lists of code units.
use douyin_live.Prelude.{
  ℕ, suc, sym, drop, length, ap, Bool-cases, inl, inr, ◌≡◌, refl, Bool, true, false, List, [], ◌∷◌,
  ◌++◌, Option, none, some, ◌==◌, if◌then◌else◌, All, arith,
}
use douyin_live.Sdk.Text.{Text}

-- A unit before the first part.
abbrev pub onto_first : ℕ → List Text → List Text
onto_first c [] = (c ∷ []) ∷ []
onto_first c (part ∷ parts) = (c ∷ part) ∷ parts

-- `split` at the units of a class.
unfoldable pub split_at : (ℕ → Bool) → Text → List Text
split_at is_end [] = [] ∷ []
split_at is_end (c ∷ text) =
    let parts = split_at is_end text in if is_end c then [] ∷ parts else onto_first c parts

-- `join`
unfoldable pub join_with : Text → List Text → Text
join_with sep [] = []
join_with sep (part ∷ []) = part
join_with sep (part ∷ next ∷ parts) = part ++ (sep ++ join_with sep (next ∷ parts))

-- What stands behind the start of a text, where `indexOf(start)` is 0.
unfoldable pub strip_start : Text → Text → Option Text
strip_start [] text = some text
strip_start (a ∷ start) [] = none
strip_start (a ∷ start) (c ∷ text) =
    let rest = strip_start start text in if a == c then rest else none

-- `indexOf` of a unit.
unfoldable pub index_of : ℕ → Text → Option ℕ
index_of a [] = none
index_of a (c ∷ text) =
    let later = index_of a text in
    if a == c then some 0 else elim later [ none ↦ none | some i ↦ some (suc i) ]

-- `indexOf` of a text, not -1.
unfoldable pub contains : Text → Text → Bool
contains part [] = elim part [ [] ↦ true | a ∷ more ↦ false ]
contains part (c ∷ text) =
    let later = contains part text in
    elim (strip_start part (c ∷ text)) [ none ↦ later | some rest ↦ true ]

-- No unit of the text is of the class.
abbrev pub Avoids : (ℕ → Bool) → Text → Type 0
Avoids is_end text = All (λ c. is_end c ≡ false) text

pub split_at-whole :
    (is_end : ℕ → Bool) (text : Text) → Avoids is_end text → split_at is_end text ≡ text ∷ []
unfolding split_at
split_at-whole is_end [] h = refl
split_at-whole is_end (c ∷ text) (out, h) = rw (out, split_at-whole is_end text h) refl

pub split_at-append :
    (is_end : ℕ → Bool) (part : Text) (c : ℕ) (text : Text)
    → Avoids is_end part
    → is_end c ≡ true
    → split_at is_end (part ++ c ∷ text) ≡ part ∷ split_at is_end text
unfolding split_at
split_at-append is_end [] c text h at_end = rw at_end refl
split_at-append is_end (b ∷ part) c text (out, h) at_end =
    rw (out, split_at-append is_end part c text h at_end) refl

pub strip_start-append : (start text : Text) → strip_start start (start ++ text) ≡ some text
unfolding strip_start
strip_start-append [] text = refl
strip_start-append (a ∷ start) text = ground (arith, strip_start-append start text)

pub index_of-append :
    (a : ℕ) (part text : Text)
    → Avoids (λ c. a == c) part
    → index_of a (part ++ a ∷ text) ≡ some (length part)
unfolding index_of
index_of-append a [] text h = ground arith
index_of-append a (c ∷ part) text (out, h) = rw (out, index_of-append a part text h) refl

-- A unit is not found, or it stands behind a part without it.
pub data Found (a : ℕ) (text : Text) : Type 0 where
  missing : index_of a text ≡ none → Avoids (λ c. a == c) text → Found a text
  behind : (part rest : Text) → text ≡ part ++ a ∷ rest → Avoids (λ c. a == c) part → Found a text

pub look_for : (a : ℕ) (text : Text) → Found a text
unfolding index_of
look_for a [] = missing refl tt
look_for a (c ∷ text) = elim (Bool-cases (a == c)) [
  | inl same ↦ let at : a ≡ c = ground arith in behind [] text (ap (λ b. b ∷ text) (sym at)) tt
  | inr other ↦ elim (look_for a text) [
    | missing gone avoids ↦ missing (rw (other, gone) refl) (other, avoids)
    | behind part rest e avoids ↦ behind (c ∷ part) rest (ap (λ t. c ∷ t) e) (other, avoids)
  ]
]

pub index_of-none : (a : ℕ) (text : Text) → Avoids (λ c. a == c) text → index_of a text ≡ none
unfolding index_of
index_of-none a [] h = refl
index_of-none a (c ∷ text) (out, h) = rw (out, index_of-none a text h) refl

pub drop_past :
    (url : Text) (c : ℕ) (text : Text) → drop (suc (length url)) (url ++ c ∷ text) ≡ text
drop_past [] c text = refl
drop_past (a ∷ url) c text = drop_past url c text
