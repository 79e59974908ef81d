-- ===== src/Sdk/Keys/Order.antt =====
-- The sorted forms of an object do not depend on the order of its keys.
use mathlib.Core.Logic.{∥∥₁_elim}
use native.Mathlib.Nat.{ℕ_set}
use mathlib.Core.List.{Permᴰ, Perm, is_set}
use douyin_live.Prelude.{
  ◌≡◌, refl, sym, ◌∙◌, ap, ap₂, Bool, true, false, ◌&&◌, not, List, [], ◌∷◌, if◌then◌else◌, inl,
  inr, Bool-cases, arith,
}
use douyin_live.Sdk.Text.{Text}
use douyin_live.Sdk.Keys.{leb_text, insert, sort, is_blank, pairs_text, sorted_text}

leb_text_total : (s t : Text) → leb_text s t ≡ false → leb_text t s ≡ true
unfolding leb_text
leb_text_total [] t h = cc
leb_text_total (a ∷ s) [] h = refl
leb_text_total (a ∷ s) (b ∷ t) h = ground (arith, leb_text_total s t)

leb_text_antisym : (s t : Text) → leb_text s t ≡ true → leb_text t s ≡ true → s ≡ t
unfolding leb_text
leb_text_antisym [] [] h k = refl
leb_text_antisym [] (b ∷ t) h k = cc
leb_text_antisym (a ∷ s) [] h k = cc
leb_text_antisym (a ∷ s) (b ∷ t) h k =
    let heads : a ≡ b = ground arith in
    ap₂ ◌∷◌ heads (leb_text_antisym s t (ground arith) (ground arith))

leb_text_trans : (s t u : Text) → leb_text s t ≡ true → leb_text t u ≡ true → leb_text s u ≡ true
unfolding leb_text
leb_text_trans [] t u h k = refl
leb_text_trans (a ∷ s) [] u h k = cc
leb_text_trans (a ∷ s) (b ∷ t) [] h k = cc
leb_text_trans (a ∷ s) (b ∷ t) (c ∷ u) h k = ground (arith, leb_text_trans s t u)

insert-nil : (x : Text) → insert x [] ≡ x ∷ []
unfolding insert
insert-nil x = refl

insert_first :
    (x y : Text) (keys : List Text) → leb_text x y ≡ true → insert x (y ∷ keys) ≡ x ∷ y ∷ keys
unfolding insert
insert_first x y keys h = rw h refl

insert_later :
    (x y : Text) (keys : List Text) → leb_text x y ≡ false → insert x (y ∷ keys) ≡ y ∷ insert x keys
unfolding insert
insert_later x y keys h = rw h refl

-- Two keys can be inserted in either order: in front of a key, or of none.
insert_same : (x y : Text) (keys : List Text) → x ≡ y → x ∷ y ∷ keys ≡ y ∷ x ∷ keys
insert_same x y keys e = ap₂ (λ a b. a ∷ b ∷ keys) e (sym e)

insert_pair :
    (x y : Text) (keys : List Text)
    → insert x keys ≡ x ∷ keys
    → insert y keys ≡ y ∷ keys
    → insert x (y ∷ keys) ≡ insert y (x ∷ keys)
insert_pair x y keys ex ey = elim (Bool-cases (leb_text x y)) [
  | inl le ↦ elim (Bool-cases (leb_text y x)) [
    | inl ge ↦
        insert_first x y keys le
        ∙ insert_same x y keys (leb_text_antisym x y le ge)
        ∙ sym (insert_first y x keys ge)
    | inr lt ↦ insert_first x y keys le ∙ sym (insert_later y x keys lt ∙ ap (λ l. x ∷ l) ey)
  ]
  | inr gt ↦
      insert_later x y keys gt
      ∙ ap (λ l. y ∷ l) ex
      ∙ sym (insert_first y x keys (leb_text_total x y gt))
]

no_both : {b : Bool} → b ≡ true → b ≡ false → ⊥
no_both h k = let e : true ≡ false = sym h ∙ k in absurd cc

insert_between :
    (x y k : Text) (keys : List Text)
    → leb_text x k ≡ true
    → leb_text y k ≡ false
    → insert x (insert y (k ∷ keys)) ≡ insert y (insert x (k ∷ keys))
insert_between x y k keys le gt = elim (Bool-cases (leb_text y x)) [
  | inl ge ↦ absurd (no_both (leb_text_trans y x k ge le) gt)
  | inr apart ↦
      ap (insert x) (insert_later y k keys gt)
      ∙ insert_first x k (insert y keys) le
      ∙ sym (
          ap (insert y) (insert_first x k keys le)
          ∙ insert_later y x (k ∷ keys) apart
          ∙ ap (λ l. x ∷ l) (insert_later y k keys gt))
]

insert_comm : (x y : Text) (keys : List Text) → insert x (insert y keys) ≡ insert y (insert x keys)
insert_comm x y [] =
    ap (insert x) (insert-nil y)
    ∙ insert_pair x y [] (insert-nil x) (insert-nil y)
    ∙ sym (ap (insert y) (insert-nil x))
insert_comm x y (k ∷ keys) = elim (Bool-cases (leb_text x k)) [
  | inl le ↦ elim (Bool-cases (leb_text y k)) [
    | inl ge ↦
        ap (insert x) (insert_first y k keys ge)
        ∙ insert_pair x y (k ∷ keys) (insert_first x k keys le) (insert_first y k keys ge)
        ∙ sym (ap (insert y) (insert_first x k keys le))
    | inr gt ↦ insert_between x y k keys le gt
  ]
  | inr later ↦ elim (Bool-cases (leb_text y k)) [
    | inl le ↦ sym (insert_between y x k keys le later)
    | inr gt ↦
        ap (insert x) (insert_later y k keys gt)
        ∙ insert_later x k (insert y keys) later
        ∙ ap (λ l. k ∷ l) (insert_comm x y keys)
        ∙ sym (ap (insert y) (insert_later x k keys later) ∙ insert_later y k (insert x keys) gt)
  ]
]

sort-Permᴰ : {a b : List Text} → Permᴰ a b → sort a ≡ sort b
unfolding sort
sort-Permᴰ Permᴰ.nil = refl
sort-Permᴰ (Permᴰ.cons e p) = ap₂ insert e (sort-Permᴰ p)
sort-Permᴰ (Permᴰ.swap {l = l} e f) =
    insert_comm _ _ (sort l) ∙ ap₂ (λ x y. insert x (insert y (sort l))) f e
sort-Permᴰ (Permᴰ.trans p q) = sort-Permᴰ p ∙ sort-Permᴰ q

and_swap : (a b c : Bool) → (a && (b && c)) ≡ (b && (a && c))
and_swap true b c = refl
and_swap false true c = refl
and_swap false false c = refl

module _ {V : Type 0} (kept : V → Bool) (to_text : V → Text) (read : Text → V) where
  is_blank-Permᴰ :
      {a b : List Text} → Permᴰ a b → is_blank kept to_text read a ≡ is_blank kept to_text read b
  unfolding is_blank
  is_blank-Permᴰ Permᴰ.nil = refl
  is_blank-Permᴰ (Permᴰ.cons e p) = ap₂ (λ key b. not (kept (read key)) && b) e (is_blank-Permᴰ p)
  is_blank-Permᴰ (Permᴰ.swap {l = l} e f) =
      and_swap _ _ (is_blank kept to_text read l)
      ∙ ap₂ (λ x y. not (kept (read x)) && (not (kept (read y)) && is_blank kept to_text read l)) f
          e
  is_blank-Permᴰ (Permᴰ.trans p q) = is_blank-Permᴰ p ∙ is_blank-Permᴰ q

  -- Objects with the same keys, in whatever order, and the same values have the same text.
  pub sorted_text-Perm :
      (a b : List Text)
      → Perm a b
      → sorted_text kept to_text (record { keys = a; read = read })
        ≡ sorted_text kept to_text (record { keys = b; read = read })
  unfolding sorted_text
  sorted_text-Perm a b p = ∥∥₁_elim p (is_set ℕ_set _ _) (λ d.
      ap₂ (λ blank keys. if blank then [] else pairs_text kept to_text read keys) (is_blank-Permᴰ d)
        (sort-Permᴰ d))
