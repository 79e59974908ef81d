-- ===== src/Sdk/Url/Params.antt =====
-- Parameters that are added to a URL are the fields of its query.
use douyin_live.Prelude.{
  ℕ, ◌≡◌, refl, sym, ◌∙◌, ap, ap₂, Bool, true, false, ◌||◌, List, [], ◌∷◌, ◌++◌, append_assoc,
  append-nil, none, some, ◌==◌, if◌then◌else◌, All, All-append, All-map, arith, map,
}
use douyin_live.Sdk.Text.{Text, same_text}
use douyin_live.Sdk.Strings.{
  split_at, index_of, Avoids, split_at-whole, split_at-append, index_of-append, index_of-none,
  drop_past, missing, behind, look_for,
}
use douyin_live.Sdk.Url.Found.{Param, last_value, find_field-set_field, or_found, or_found_lem}
use douyin_live.Sdk.Url.{
  is_word_unit, ends_line, line_of, assigns, matched, query_of, Fields, set_field, find_field,
  key_of, value_of, set_parts, parse_query, param_text, add_params,
}

-- The array of the keys and values in turn.
abbrev pub array_of : List Param → List Text
array_of [] = []
array_of (p ∷ params) = p.0 ∷ p.1 ∷ array_of params

abbrev cuts : ℕ → Bool
cuts c = (c == b'&') || (c == b'=') || ends_line c

abbrev pub IsParam : Param → Type 0
IsParam p = Avoids cuts p.0 × Avoids cuts p.1

-- `\w+`
abbrev pub IsWord : Text → Type 0
IsWord [] = ⊥
IsWord (c ∷ text) = All (λ b. is_word_unit b ≡ true) (c ∷ text)

entry : Param → Text
entry p = p.0 ++ b'=' ∷ p.1

param_text-cons :
    (p : Param) (params : List Param)
    → param_text (array_of (p ∷ params)) ≡ b'&' ∷ (entry p ++ param_text (array_of params))
unfolding param_text entry
param_text-cons p params =
    ap (λ t. b'&' ∷ t) (sym (append_assoc p.0 (b'=' ∷ p.1) (param_text (array_of params))))

param_text-append :
    (params : List Param) (more : List Text)
    → param_text (array_of params ++ more) ≡ param_text (array_of params) ++ param_text more
unfolding param_text
param_text-append [] more = refl
param_text-append (p ∷ params) more =
    let step = param_text-append params more in
    rw step (
      ap (λ t. b'&' ∷ t)
        (sym (
          append_assoc p.0 (b'=' ∷ (p.1 ++ param_text (array_of params))) (param_text more)
          ∙ ap (λ t. p.0 ++ b'=' ∷ t)
              (append_assoc p.1 (param_text (array_of params)) (param_text more)))))

-- The units of a class that cuts no parameter.
Avoids-class :
    (is_end : ℕ → Bool) (text : Text)
    → ((c : ℕ) → cuts c ≡ false → is_end c ≡ false)
    → Avoids cuts text
    → Avoids is_end text
Avoids-class is_end text apart h =
    All-map (λ c. cuts c ≡ false) (λ c. is_end c ≡ false) text apart h

entry-Avoids :
    (is_end : ℕ → Bool) (p : Param)
    → ((c : ℕ) → cuts c ≡ false → is_end c ≡ false)
    → is_end b'=' ≡ false
    → IsParam p
    → Avoids is_end (entry p)
unfolding entry
entry-Avoids is_end p apart sign (k, v) =
    All-append (λ c. is_end c ≡ false) p.0 (b'=' ∷ p.1) (Avoids-class is_end p.0 apart k)
      (sign, Avoids-class is_end p.1 apart v)

not_ampersand : (c : ℕ) → cuts c ≡ false → (c == b'&') ≡ false
not_ampersand c h = ground arith

not_equals : (c : ℕ) → cuts c ≡ false → (c == b'=') ≡ false
not_equals c h = ground arith

no_line_end : (c : ℕ) → cuts c ≡ false → ends_line c ≡ false
no_line_end c h = ground arith

split_entry : (p : Param) → IsParam p → split_at (λ c. c == b'=') (entry p) ≡ p.0 ∷ p.1 ∷ []
unfolding entry
split_entry p (k, v) =
    split_at-append (λ c. c == b'=') p.0 b'=' p.1 (Avoids-class (λ c. c == b'=') p.0 not_equals k)
      refl
    ∙ ap (λ l. p.0 ∷ l)
        (split_at-whole (λ c. c == b'=') p.1 (Avoids-class (λ c. c == b'=') p.1 not_equals v))

find_field-set_parts :
    (name : Text) (params : List Param) (fields : Fields)
    → All IsParam params
    → find_field name (set_parts fields (map entry params))
      ≡ or_found (last_value name params) (find_field name fields)
unfolding set_parts
find_field-set_parts name [] fields all = refl
find_field-set_parts name (p ∷ params) fields (one, all) =
    let fields' = set_field (key_of (entry p)) (value_of (entry p)) fields in
    let key : key_of (entry p) ≡ p.0 = unfold key_of in rw (key_of, split_entry p one) refl in
    let value : value_of (entry p) ≡ some p.1 =
      unfold value_of in rw (value_of, split_entry p one) refl in
    let here : find_field name fields'
        ≡ (if same_text name p.0 then some (some p.1) else find_field name fields) =
      rw (key, value) (find_field-set_field name p.0 (some p.1) fields) in
    find_field-set_parts name params fields' all
    ∙ ap (or_found (last_value name params)) here
    ∙ or_found_lem (last_value name params) (same_text name p.0) p.1 (find_field name fields)

split_params :
    (p : Param) (params : List Param)
    → IsParam p
    → All IsParam params
    → split_at (λ b. b == b'&') (entry p ++ param_text (array_of params)) ≡ map entry (p ∷ params)
split_params p [] one all =
    let avoids = entry-Avoids (λ b. b == b'&') p not_ampersand refl one in
    let bare : entry p ++ param_text [] ≡ entry p = unfold param_text in append-nil (entry p) in
    ap (split_at (λ b. b == b'&')) bare ∙ split_at-whole (λ b. b == b'&') (entry p) avoids
split_params p (q ∷ params) one (two, all) =
    let avoids = entry-Avoids (λ b. b == b'&') p not_ampersand refl one in
    ap (λ t. split_at (λ b. b == b'&') (entry p ++ t)) (param_text-cons q params)
    ∙ split_at-append (λ b. b == b'&') (entry p) b'&' (entry q ++ param_text (array_of params))
        avoids refl
    ∙ ap (λ l. entry p ∷ l) (split_params q params two all)

assigns-word :
    (key text : Text) → All (λ b. is_word_unit b ≡ true) key → assigns (key ++ b'=' ∷ text) ≡ true
unfolding assigns
assigns-word [] text h = refl
assigns-word (c ∷ key) text (one, h) = rw (one, assigns-word key text h) (ground arith)

line_of-whole : (text : Text) → Avoids ends_line text → line_of text ≡ text
unfolding line_of
line_of-whole [] h = refl
line_of-whole (c ∷ text) (out, h) = rw (out, line_of-whole text h) refl

params_line :
    (params : List Param) → All IsParam params → Avoids ends_line (param_text (array_of params))
params_line [] all = unfold param_text in tt
params_line (p ∷ params) (one, all) = rw (param_text-cons p params) (
  unfold ends_line in refl,
  All-append (λ c. ends_line c ≡ false) (entry p) (param_text (array_of params))
      (entry-Avoids ends_line p no_line_end (unfold ends_line in refl) one)
      (params_line params all),
)

matched_lem :
    (p : Param) (text : Text)
    → IsWord p.0
    → IsParam p
    → Avoids ends_line text
    → matched (entry p ++ text) ≡ entry p ++ text
unfolding matched entry
matched_lem ([], value) text word one h = absurd word
matched_lem (c ∷ key, value) text (first, word) one h =
    let line =
      All-append (λ c. ends_line c ≡ false) (entry (c ∷ key, value)) text
        (entry-Avoids ends_line (c ∷ key, value) no_line_end (unfold ends_line in refl) one) h in
    let found : assigns ((key ++ b'=' ∷ value) ++ text) ≡ true =
      ap assigns (append_assoc key (b'=' ∷ value) text) ∙ assigns-word key (value ++ text) word in
    rw (matched, first, found) (line_of-whole (entry (c ∷ key, value) ++ text) line)

query_of-append :
    (url text : Text) → Avoids (λ c. b'?' == c) url → query_of (url ++ b'?' ∷ text) ≡ text
unfolding query_of
query_of-append url text h =
    rw (query_of, index_of-append b'?' url text h) (drop_past url b'?' text)

-- The sign before the first parameter.
mark : Text → ℕ
mark url = elim (index_of b'?' url) [ none ↦ b'?' | some i ↦ b'&' ]

add_params-text :
    (url : Text) (params : List Text) (text : Text)
    → param_text params ≡ b'&' ∷ text
    → add_params url params ≡ url ++ mark url ∷ text
unfolding add_params mark
add_params-text url params text e = rw (add_params, e) refl

add_params-none : (url : Text) → add_params url [] ≡ url
unfolding add_params
add_params-none url = refl

mark-whole : (url : Text) → Avoids (λ c. b'?' == c) url → mark url ≡ b'?'
unfolding mark
mark-whole url h = rw (mark, index_of-none b'?' url h) refl

mark-behind : (part rest : Text) → Avoids (λ c. b'?' == c) part → mark (part ++ b'?' ∷ rest) ≡ b'&'
unfolding mark
mark-behind part rest h = rw (mark, index_of-append b'?' part rest h) refl

mark-add : (url text : Text) → mark (url ++ mark url ∷ text) ≡ b'&'
mark-add url text = elim (look_for b'?' url) [
  | missing gone h ↦ rw (mark-whole url h) (mark-behind url text h)
  | behind part rest e h ↦
      ap mark (ap (λ u. u ++ mark url ∷ text) e ∙ append_assoc part (b'?' ∷ rest) (mark url ∷ text))
      ∙ mark-behind part (rest ++ mark url ∷ text) h
]

parse_query-matched :
    (url : Text) (c : ℕ) (text : Text)
    → query_of url ≡ c ∷ text
    → matched (c ∷ text) ≡ c ∷ text
    → parse_query url ≡ set_parts [] (split_at (λ b. b == b'&') (c ∷ text))
unfolding parse_query
parse_query-matched url c text query whole = rw (parse_query, query, whole) refl

-- The fields of the query hold the last value that was added for each name, and no others, if the
-- URL had no query, and the parameters have no sign of the syntax and no line break, and the first
-- of them has a name of letters, digits and underscores.
pub parse_query-add_params :
    (url : Text) (p : Param) (params : List Param) (name : Text)
    → Avoids (λ c. b'?' == c) url
    → IsWord p.0
    → All IsParam (p ∷ params)
    → find_field name (parse_query (add_params url (array_of (p ∷ params))))
      ≡ or_found (last_value name (p ∷ params)) none
unfolding find_field entry
parse_query-add_params url ([], value) params name h word all = absurd word
parse_query-add_params url (c ∷ key, value) params name h word (one, all) =
    let p : Param = (c ∷ key, value) in
    let text = entry p ++ param_text (array_of params) in
    let query : query_of (add_params url (array_of (p ∷ params))) ≡ text =
      ap query_of (
        add_params-text url (array_of (p ∷ params)) text (param_text-cons p params)
        ∙ ap (λ m. url ++ m ∷ text) (mark-whole url h))
      ∙ query_of-append url text h in
    let whole = matched_lem p (param_text (array_of params)) word one (params_line params all) in
    let fields : parse_query (add_params url (array_of (p ∷ params)))
        ≡ set_parts [] (map entry (p ∷ params)) =
      parse_query-matched (add_params url (array_of (p ∷ params))) c _ query whole
      ∙ ap (set_parts []) (split_params p params one all) in
    ap (find_field name) fields ∙ find_field-set_parts name (p ∷ params) [] (one, all)

-- Parameters can be added in two steps.
pub add_params-append :
    (url : Text) (first second : List Param)
    → add_params (add_params url (array_of first)) (array_of second)
      ≡ add_params url (array_of first ++ array_of second)
unfolding param_text
add_params-append url [] second = ap (λ u. add_params u (array_of second)) (add_params-none url)
add_params-append url (p ∷ first) [] =
    add_params-none (add_params url (array_of (p ∷ first)))
    ∙ ap (add_params url) (sym (append-nil (array_of (p ∷ first))))
add_params-append url (p ∷ first) (q ∷ second) =
    let a = entry p ++ param_text (array_of first) in
    let b = entry q ++ param_text (array_of second) in
    let both : param_text (array_of (p ∷ first) ++ array_of (q ∷ second)) ≡ b'&' ∷ (a ++ b'&' ∷ b) =
      param_text-append (p ∷ first) (array_of (q ∷ second))
      ∙ ap₂ ◌++◌ (param_text-cons p first) (param_text-cons q second) in
    ap (λ u. add_params u (array_of (q ∷ second)))
      (add_params-text url (array_of (p ∷ first)) a (param_text-cons p first))
    ∙ add_params-text (url ++ mark url ∷ a) (array_of (q ∷ second)) b (param_text-cons q second)
    ∙ ap (λ m. (url ++ mark url ∷ a) ++ m ∷ b) (mark-add url a)
    ∙ append_assoc url (mark url ∷ a) (b'&' ∷ b)
    ∙ sym (add_params-text url (array_of (p ∷ first) ++ array_of (q ∷ second)) (a ++ b'&' ∷ b) both)
