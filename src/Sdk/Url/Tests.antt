-- ===== src/Sdk/Url/Tests.antt =====
-- Runs of the URL functions, and their theorems at concrete inputs.
use douyin_live.Prelude.{◌≡◌, refl, List, [], ◌∷◌, some, ◌==◌}
use douyin_live.Sdk.Text.{Text, codes, same_text}
use douyin_live.Sdk.Strings.{split_at, join_with, strip_start, index_of, Avoids}
use douyin_live.Sdk.Url.{
  path_of, parse_query, query_of, find_field, add_params, is_word_unit, ends_line, escape_query,
  encoded_once, escape_quotes,
}
use douyin_live.Sdk.Url.Found.{Param}
use douyin_live.Sdk.Url.Params.{array_of, parse_query-add_params}
use douyin_live.Sdk.Url.Parts.{escape_quotes-safe}

-- A slash in the query of a URL without a path is taken for the path's.
path_in_query : path_of (codes "https://a.b?next=/c") ≡ codes "/c"
unfolding path_of strip_start index_of
path_in_query = refl

abbrev url : Text
url = codes "https://a.b/c"

abbrev params : List Param
params = (codes "aid", codes "1") ∷ (codes "q", codes "x") ∷ []

added : add_params url (array_of params) ≡ codes "https://a.b/c?aid=1&q=x"
unfolding add_params index_of
added = refl

parse_query-add_params_example :
    find_field (codes "q") (parse_query (add_params url (array_of params)))
    ≡ some (some (codes "x"))
unfolding is_word_unit same_text ends_line
parse_query-add_params_example =
    parse_query-add_params url (codes "aid", codes "1") ((codes "q", codes "x") ∷ []) (codes "q")
      (
        refl,
        (
          refl,
          (
            refl,
            (refl, (refl, (refl, (refl, (refl, (refl, (refl, (refl, (refl, (refl, tt)))))))))),
          ),
        ),
      )
      (refl, (refl, (refl, tt)))
      (((refl, (refl, (refl, tt))), (refl, tt)), (((refl, tt), (refl, tt)), tt))

escape_quotes-safe_example : Avoids (λ c. c == 0x27) (query_of (codes "/a?b=%27"))
unfolding escape_quotes escape_query encoded_once same_text index_of split_at join_with
escape_quotes-safe_example =
    escape_quotes-safe (λ text. some text) (λ text. some text) (codes "/a?b='") (codes "/a?b=%27")
      refl (λ first. cc)
