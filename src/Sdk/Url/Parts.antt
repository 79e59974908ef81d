-- ===== src/Sdk/Url/Parts.antt =====
-- The path of a URL, and the query after its quotes are escaped.
use douyin_live.Prelude.{
  ℕ, suc, ◌≡◌, refl, sym, ◌∙◌, ap, Bool, false, List, [], ◌∷◌, ◌++◌, append_assoc, Option, none,
  some, ◌==◌, All, All-append, Option-cases, Bool-cases, inl, inr, take, length, take-append_length,
}
use douyin_live.Sdk.Text.{Text, codes}
use douyin_live.Sdk.Strings.{
  split_at, join_with, index_of, strip_start, Avoids, index_of-append, drop_past, onto_first,
  missing, behind, look_for,
}
use douyin_live.Sdk.Url.{
  drop_scheme, drop_host, before_query, or_root, path_of, query_of, escape_query, encoded_once,
  escape_quotes,
}

abbrev pub quote : ℕ → Bool
quote c = c == 0x27

onto_first-Avoids :
    (is_end : ℕ → Bool) (c : ℕ) (parts : List Text)
    → is_end c ≡ false
    → All (Avoids is_end) parts
    → All (Avoids is_end) (onto_first c parts)
onto_first-Avoids is_end c [] out h = ((out, tt), tt)
onto_first-Avoids is_end c (part ∷ parts) out (one, h) = ((out, one), h)

split_at-Avoids : (is_end : ℕ → Bool) (text : Text) → All (Avoids is_end) (split_at is_end text)
unfolding split_at
split_at-Avoids is_end [] = (tt, tt)
split_at-Avoids is_end (c ∷ text) = elim (Bool-cases (is_end c)) [
  | inl cut ↦ rw cut (tt, split_at-Avoids is_end text)
  | inr out ↦
      rw out (onto_first-Avoids is_end c (split_at is_end text) out (split_at-Avoids is_end text))
]

join_with-Avoids :
    (is_end : ℕ → Bool) (sep : Text) (parts : List Text)
    → Avoids is_end sep
    → All (Avoids is_end) parts
    → Avoids is_end (join_with sep parts)
unfolding join_with
join_with-Avoids is_end sep [] s h = tt
join_with-Avoids is_end sep (part ∷ []) s (one, h) = one
join_with-Avoids is_end sep (part ∷ next ∷ parts) s (one, h) =
    All-append (λ c. is_end c ≡ false) part (sep ++ join_with sep (next ∷ parts)) one
      (All-append (λ c. is_end c ≡ false) sep (join_with sep (next ∷ parts)) s
        (join_with-Avoids is_end sep (next ∷ parts) s h))

query_of-behind :
    (part rest : Text) → Avoids (λ c. b'?' == c) part → query_of (part ++ b'?' ∷ rest) ≡ rest
unfolding query_of
query_of-behind part rest h =
    rw (query_of, index_of-append b'?' part rest h) (drop_past part b'?' rest)

abbrev escaped : Text → Text
escaped text = join_with (codes "%27") (split_at quote text)

take_past :
    (url : Text) (c : ℕ) (text : Text) → take (suc (length url)) (url ++ c ∷ text) ≡ url ++ c ∷ []
take_past [] c text = refl
take_past (a ∷ url) c text = ap (λ t. a ∷ t) (take_past url c text)

escape_query-first : (text : Text) → escape_query (b'?' ∷ text) ≡ b'?' ∷ text
unfolding escape_query index_of
escape_query-first text = refl

escape_query-behind :
    (c : ℕ) (part rest : Text)
    → Avoids (λ b. b'?' == b) (c ∷ part)
    → escape_query ((c ∷ part) ++ b'?' ∷ rest) ≡ (c ∷ part) ++ b'?' ∷ escaped rest
unfolding escape_query
escape_query-behind c part rest h =
    rw
      (
        escape_query,
        index_of-append b'?' (c ∷ part) rest h,
        take_past part b'?' rest,
        drop_past part b'?' rest,
      )
      (ap (λ t. c ∷ t) (append_assoc part (b'?' ∷ []) (escaped rest)))

-- A URL that starts with its query is left as it is.
abbrev pub StartsWithQuery : Text → Type 0
StartsWithQuery [] = ⊥
StartsWithQuery (c ∷ text) = b'?' ≡ c

unchanged : (url : Text) → index_of b'?' url ≡ none → escape_query url ≡ url
unfolding escape_query
unchanged url gone = rw (escape_query, gone) refl

unchanged_query : (url : Text) → index_of b'?' url ≡ none → query_of url ≡ []
unfolding query_of
unchanged_query url gone = rw (query_of, gone) refl

escape_query-safe :
    (url : Text)
    → (StartsWithQuery (escape_query url) → ⊥)
    → Avoids quote (query_of (escape_query url))
escape_query-safe url h = elim (look_for b'?' url) [
  | missing gone avoids ↦ rw (unchanged url gone, unchanged_query url gone) tt
  | behind [] rest e avoids ↦ absurd (h (rw (e, escape_query-first rest) refl))
  | behind (c ∷ part) rest e avoids ↦
      rw
        (
          e,
          escape_query-behind c part rest avoids,
          query_of-behind (c ∷ part) (escaped rest) avoids,
        )
        (join_with-Avoids quote (codes "%27") (split_at quote rest) (refl, (refl, (refl, tt)))
          (split_at-Avoids quote rest))
]

module _ (decode_component encode_uri : Text → Option Text) where
  -- The query of a URL whose quotes were escaped has no quote, if it does not start the URL.
  pub escape_quotes-safe :
      (url result : Text)
      → escape_quotes decode_component encode_uri url ≡ some result
      → (StartsWithQuery result → ⊥)
      → Avoids quote (query_of result)
  unfolding escape_quotes
  escape_quotes-safe url result e h =
      elim (Option-cases (encoded_once decode_component encode_uri url)) [
        | inl gone ↦
            let no : escape_quotes decode_component encode_uri url ≡ none =
              rw (escape_quotes, gone) refl in
            let both : ◌≡◌ {A = Option Text} none (some result) = sym no ∙ e in absurd cc
        | inr (coded, made) ↦
            let some_url : escape_quotes decode_component encode_uri url
                ≡ some (escape_query coded) =
              rw (escape_quotes, made) refl in
            let both : ◌≡◌ {A = Option Text} (some (escape_query coded)) (some result) =
              sym some_url ∙ e in
            let at : escape_query coded ≡ result = cc in
            rw (← at) (escape_query-safe coded (λ first. h (rw (← at) first)))
      ]

pub data Scheme : Type 0 where
  http https same : Scheme

abbrev pub scheme_text : Scheme → Text
scheme_text http = codes "http://"
scheme_text https = codes "https://"
scheme_text same = codes "//"

drop_scheme-append :
    (scheme : Scheme) (text : Text) → drop_scheme (scheme_text scheme ++ text) ≡ text
unfolding drop_scheme strip_start
drop_scheme-append http text = refl
drop_scheme-append https text = refl
drop_scheme-append same text = refl

drop_host-append :
    (host text : Text)
    → Avoids (λ c. c == b'/') host
    → drop_host (host ++ b'/' ∷ text) ≡ b'/' ∷ text
unfolding drop_host
drop_host-append [] text h = refl
drop_host-append (c ∷ host) text (out, h) = rw (out, drop_host-append host text h) refl

before_query-append :
    (path query : Text) → Avoids (λ c. b'?' == c) path → before_query (path ++ b'?' ∷ query) ≡ path
unfolding before_query
before_query-append path query h =
    rw (before_query, index_of-append b'?' path query h) (take-append_length path (b'?' ∷ query))

-- The path of a URL that has a scheme, a host without a slash, a path that starts with a slash and
-- has no question mark, and a query.
pub path_of-append :
    (scheme : Scheme) (host path query : Text)
    → Avoids (λ c. c == b'/') host
    → Avoids (λ c. b'?' == c) path
    → path_of (scheme_text scheme ++ (host ++ b'/' ∷ (path ++ b'?' ∷ query))) ≡ b'/' ∷ path
unfolding path_of or_root
path_of-append scheme host path query h p =
    rw
      (
        path_of,
        drop_scheme-append scheme (host ++ b'/' ∷ (path ++ b'?' ∷ query)),
        drop_host-append host (path ++ b'?' ∷ query) h,
        before_query-append (b'/' ∷ path) query (refl, p),
      )
      refl
