-- ===== src/Sdk/Browser/Addresses/Distinct.antt =====
-- The answer names each address of the candidates once.
use douyin_live.Prelude.{
  ◌≡◌, refl, ap, ◌∙◌, Bool, true, false, ◌||◌, List, [], ◌∷◌, ◌++◌, Option, none, some, arith, map,
  Bool-cases, inl, inr, Option-cases, All, ◌≢◌,
}
use douyin_live.Sdk.Text.{Text, codes, same_text, same_text_sound}
use douyin_live.Sdk.Strings.{join_with}
use douyin_live.Sdk.Browser.Addresses.{
  Gathering, Report, candidate, no_candidate, has_text, add_address, on_candidate, on_candidates,
  gather, begin_gathering, answer_with,
}

-- No text stands twice in the list.
pub IsDistinct : List Text → Type 0
IsDistinct [] = Unit {0}
IsDistinct (t ∷ list) = (has_text t list ≡ false) × IsDistinct list

-- A candidate of this address is among the texts.
abbrev pub names : (Text → Option Text) → Text → List Text → Bool
names address_of address [] = false
names address_of address (text ∷ texts) =
    elim (address_of text) [ none ↦ false | some a ↦ same_text address a ]
    || names address_of address texts

has_text-append :
    (text : Text) (list more : List Text)
    → has_text text (list ++ more) ≡ (has_text text list || has_text text more)
unfolding has_text
has_text-append text [] more = refl
has_text-append text (t ∷ list) more = ground (arith, has_text-append text list more)

same_text_comm : (a b : Text) → same_text a b ≡ same_text b a
unfolding same_text
same_text_comm [] [] = refl
same_text_comm [] (b ∷ t) = refl
same_text_comm (a ∷ s) [] = refl
same_text_comm (a ∷ s) (b ∷ t) = ground (arith, same_text_comm s t)

IsDistinct-append :
    (list : List Text) (address : Text)
    → has_text address list ≡ false
    → IsDistinct list
    → IsDistinct (list ++ address ∷ [])
unfolding IsDistinct has_text
IsDistinct-append [] address h d = (refl, tt)
IsDistinct-append (t ∷ list) address h d = (
  has_text-append t list (address ∷ []) ∙ ground (arith, same_text_comm t address),
  IsDistinct-append list address (ground arith) d.1,
)

add_address-IsDistinct :
    (address : Text) (found : List Text) → IsDistinct found → IsDistinct (add_address address found)
unfolding add_address
add_address-IsDistinct address found d = elim (Bool-cases (has_text address found)) [
  | inl old ↦ rw old d
  | inr fresh ↦ rw fresh (IsDistinct-append found address fresh d)
]

has_text_same :
    (a b : Text) (found : List Text) → same_text a b ≡ true → has_text a found ≡ has_text b found
has_text_same a b found e = ap (λ t. has_text t found) (same_text_sound a b e)

has_text-add_address :
    (a address : Text) (found : List Text)
    → has_text a (add_address address found) ≡ (has_text a found || same_text a address)
unfolding add_address has_text
has_text-add_address a address found = elim (Bool-cases (has_text address found)) [
  | inl old ↦ elim (Bool-cases (same_text a address)) [
    | inl same ↦ rw (old, same, has_text_same a address found same) (ground (arith, old))
    | inr other ↦ rw (old, other) (ground arith)
  ]
  | inr fresh ↦ rw (fresh, has_text-append a found (address ∷ [])) (ground (arith, has_text))
]

-- What a gathering that has no answer yet has found, from the names of the candidates so far.
record Finds (g : Gathering) (has : Text → Bool) : Type 0 where
  open_yet : g.answer ≡ none
  distinct : IsDistinct g.found
  complete : (a : Text) → has_text a g.found ≡ has a

Finds-eq :
    (g : Gathering) (has has' : Text → Bool)
    → Finds g has
    → ((a : Text) → has a ≡ has' a)
    → Finds g has'
Finds-eq g has has' f e = record {
  open_yet = f.open_yet;
  distinct = f.distinct;
  complete = λ a. f.complete a ∙ e a;
}

or_assoc : (a b c : Bool) → ((a || b) || c) ≡ (a || (b || c))
or_assoc true b c = refl
or_assoc false b c = refl

module _ (address_of : Text → Option Text) where
  on_candidate-Finds :
      (g : Gathering) (has : Text → Bool) (text : Text)
      → text ≢ []
      → Finds g has
      → Finds
          (on_candidate address_of g (candidate text))
          (λ a. has a || elim (address_of text) [ none ↦ false | some t ↦ same_text a t ])
  unfolding on_candidate
  on_candidate-Finds g has [] h f = absurd (h refl)
  on_candidate-Finds g has (c ∷ text) h f = elim (Option-cases (address_of (c ∷ text))) [
    | inl e ↦
        rw (e, on_candidate)
          (record {
            open_yet = f.open_yet;
            distinct = f.distinct;
            complete = λ a. f.complete a ∙ ground arith;
          })
    | inr (t, e) ↦
        rw (e, on_candidate)
          (record {
            open_yet = f.open_yet;
            distinct = add_address-IsDistinct t g.found f.distinct;
            complete =
                λ a. has_text-add_address a t g.found ∙ ap (λ b. b || same_text a t) (f.complete a);
          })
  ]

  on_candidates-Finds :
      (g : Gathering) (has : Text → Bool) (texts : List Text)
      → All (λ t. t ≢ []) texts
      → Finds g has
      → Finds
          (on_candidates address_of g (map candidate texts))
          (λ a. has a || names address_of a texts)
  unfolding on_candidates
  on_candidates-Finds g has [] h f = Finds-eq g has _ f (λ a. ground arith)
  on_candidates-Finds g has (text ∷ texts) h f =
      Finds-eq
        (on_candidates address_of (on_candidate address_of g (candidate text))
          (map candidate texts))
        (λ a.
          (has a || elim (address_of text) [ none ↦ false | some t ↦ same_text a t ])
          || names address_of a texts)
        _
        (on_candidates-Finds (on_candidate address_of g (candidate text)) _ texts h.1
          (on_candidate-Finds g has text h.0 f))
        (λ a. or_assoc (has a) _ (names address_of a texts))

found-All :
    (address_of : Text → Option Text) (texts : List Text)
    → All (λ t. t ≢ []) texts
    → Finds
        (on_candidates address_of (begin_gathering false) (map candidate texts))
        (λ a. names address_of a texts)
unfolding begin_gathering IsDistinct has_text
found-All address_of texts h =
    on_candidates-Finds address_of (begin_gathering false) (λ a. false) texts h
      (record { open_yet = refl; distinct = tt; complete = λ a. refl })

-- Once there is an answer it stays.
answer_with_kept :
    (text t : Text) (g : Gathering) → g.answer ≡ some t → (answer_with text g).answer ≡ some t
unfolding answer_with
answer_with_kept text t g e = rw e refl

on_candidates_kept :
    (address_of : Text → Option Text) (t : Text) (reports : List Report) (g : Gathering)
    → g.answer ≡ some t
    → (on_candidates address_of g reports).answer ≡ some t
unfolding on_candidates on_candidate
on_candidates_kept address_of t [] g e = e
on_candidates_kept address_of t (no_candidate ∷ reports) g e =
    on_candidates_kept address_of t reports _ (answer_with_kept _ t g e)
on_candidates_kept address_of t (candidate [] ∷ reports) g e =
    on_candidates_kept address_of t reports _ (answer_with_kept _ t g e)
on_candidates_kept address_of t (candidate (c ∷ text) ∷ reports) g e =
    on_candidates_kept address_of t reports _ (elim (Option-cases (address_of (c ∷ text))) [
      | inl away ↦ rw (away, on_candidate) e
      | inr (a, found) ↦ rw (found, on_candidate) e
    ])

on_candidates-append :
    (address_of : Text → Option Text) (g : Gathering) (reports more : List Report)
    → on_candidates address_of g (reports ++ more)
      ≡ on_candidates address_of (on_candidates address_of g reports) more
unfolding on_candidates
on_candidates-append address_of g [] more = refl
on_candidates-append address_of g (r ∷ reports) more =
    on_candidates-append address_of (on_candidate address_of g r) reports more

no_candidate_last :
    (address_of : Text → Option Text) (g : Gathering) (later : List Report)
    → g.answer ≡ none
    → (on_candidates address_of g (no_candidate ∷ later)).answer
      ≡ some (join_with (codes ",") g.found)
unfolding on_candidates on_candidate answer_with
no_candidate_last address_of g later e =
    on_candidates_kept address_of _ later (on_candidate address_of g no_candidate) (rw e refl)

-- Where a connection is made and the page does not answer early, the report of the end answers
-- with the addresses of the candidates before it, joined by commas: none stands twice, a text is
-- among them exactly when a candidate names it, and what is reported later changes nothing.
pub gather-IsDistinct :
    (address_of : Text → Option Text) (texts : List Text) (later : List Report)
    → All (λ t. t ≢ []) texts
    → (list : List Text) × (gather address_of false true
          (map candidate texts ++ no_candidate ∷ later)
        ≡ some (join_with (codes ",") list))
      × IsDistinct list
      × ((a : Text) → has_text a list ≡ names address_of a texts)
unfolding gather
gather-IsDistinct address_of texts later h =
    let g : Gathering = on_candidates address_of (begin_gathering false) (map candidate texts) in
    let f : Finds g (λ a. names address_of a texts) = found-All address_of texts h in
    (
      g.found,
      rw
          (
            gather,
            on_candidates-append address_of (begin_gathering false) (map candidate texts)
                (no_candidate ∷ later),
          )
          (no_candidate_last address_of g later f.open_yet),
      f.distinct,
      f.complete,
    )
