-- ===== src/Sdk/Storage/Cookies.antt =====
-- A cookie is found by its name.
use douyin_live.Prelude.{
  ℕ, ◌≡◌, refl, ◌∙◌, ap, Bool, true, false, not, ◌&&◌, List, [], ◌∷◌, ◌++◌, append-nil, Option,
  none, some, ◌==◌, if◌then◌else◌, All, All-append, arith, Bool-cases, inl, inr,
}
use douyin_live.Sdk.Text.{Text, codes, same_text}
use douyin_live.Sdk.Strings.{split_at, strip_start, Avoids, split_at-whole, split_at-append}
use douyin_live.Sdk.Storage.{trim_spaces, ends_cookie, find_part, find_cookie}

abbrev pub Cookie : Type 0
Cookie = Text × Text

abbrev entry_text : Cookie → Text
entry_text c = c.0 ++ b'=' ∷ c.1

abbrev more_cookies : List Cookie → Text
more_cookies [] = []
more_cookies (c ∷ cookies) = b';' ∷ b' ' ∷ (entry_text c ++ more_cookies cookies)

-- The text that a browser gives for cookies: `a=1; b=2`.
abbrev pub cookie_text : List Cookie → Text
cookie_text [] = []
cookie_text (c ∷ cookies) = entry_text c ++ more_cookies cookies

abbrev name_unit : ℕ → Bool
name_unit c = not (c == b';') && not (c == b'&') && not (c == b'=') && not (c == b' ')

abbrev pub IsName : Text → Type 0
IsName name = All (λ c. name_unit c ≡ true) name

abbrev pub IsCookie : Cookie → Type 0
IsCookie c = IsName c.0 × Avoids ends_cookie c.1

-- The first of the cookies that has the name.
abbrev pub cookie_of : Text → List Cookie → Option Text
cookie_of name [] = none
cookie_of name (c ∷ cookies) = if same_text name c.0 then some c.1 else cookie_of name cookies

name-Avoids : (name : Text) → IsName name → Avoids ends_cookie name
unfolding ends_cookie
name-Avoids [] h = tt
name-Avoids (c ∷ name) (one, h) = (ground arith, name-Avoids name h)

entry-Avoids : (c : Cookie) → IsCookie c → Avoids ends_cookie (entry_text c)
unfolding ends_cookie
entry-Avoids (name, value) (n, v) =
    All-append (λ c. ends_cookie c ≡ false) name (b'=' ∷ value) (name-Avoids name n) (refl, v)

-- The name with its sign at the start of an entry.
strip_name :
    (key name value : Text)
    → IsName key
    → IsName name
    → strip_start (key ++ codes "=") (name ++ b'=' ∷ value)
      ≡ (if same_text key name then some value else none)
unfolding strip_start same_text
strip_name [] [] value k n = refl
strip_name [] (b ∷ name) value k (one, n) = ground arith
strip_name (a ∷ key) [] value (one, k) n = ground arith
strip_name (a ∷ key) (b ∷ name) value (one, k) (two, n) =
    ground (arith, strip_name key name value k n)

find_empty : (key : Text) → find_part (key ++ codes "=") (split_at ends_cookie []) ≡ none
unfolding find_part split_at strip_start trim_spaces
find_empty [] = refl
find_empty (a ∷ key) = refl

trim_entry : (c : Cookie) → IsCookie c → trim_spaces (entry_text c) ≡ entry_text c
unfolding trim_spaces
trim_entry ([], value) h = refl
trim_entry (b ∷ name, value) ((one, n), v) =
    let no_space : (b == b' ') ≡ false = ground arith in rw no_space refl

trim_space : (text : Text) → trim_spaces (b' ' ∷ text) ≡ trim_spaces text
unfolding trim_spaces
trim_space text = refl

abbrev spaced : List Cookie → List Text
spaced [] = []
spaced (c ∷ cookies) = (b' ' ∷ entry_text c) ∷ spaced cookies

split_cookies :
    (part : Text) (cookies : List Cookie)
    → Avoids ends_cookie part
    → All IsCookie cookies
    → split_at ends_cookie (part ++ more_cookies cookies) ≡ part ∷ spaced cookies
split_cookies part [] p all =
    ap (split_at ends_cookie) (append-nil part) ∙ split_at-whole ends_cookie part p
split_cookies part (c ∷ cookies) p (one, all) =
    split_at-append ends_cookie part b';' (b' ' ∷ (entry_text c ++ more_cookies cookies)) p
      (unfold ends_cookie in refl)
    ∙ ap (λ l. part ∷ l)
        (split_cookies (b' ' ∷ entry_text c) cookies
          (unfold ends_cookie in refl, entry-Avoids c one) all)

module _ (key : Text) (k : IsName key) where
  find_entry :
      (c : Cookie) (part : Text) (parts : List Text) (cookies : List Cookie)
      → IsCookie c
      → trim_spaces part ≡ entry_text c
      → find_part (key ++ codes "=") parts ≡ cookie_of key cookies
      → find_part (key ++ codes "=") (part ∷ parts) ≡ cookie_of key (c ∷ cookies)
  unfolding find_part
  find_entry (name, value) part parts cookies one trimmed later =
      rw (trimmed, find_part)
        (rw (strip_name key name value k one.0) (elim (Bool-cases (same_text key name)) [
          | inl same ↦ rw same refl
          | inr other ↦ rw other later
        ]))

  find_spaced :
      (cookies : List Cookie)
      → All IsCookie cookies
      → find_part (key ++ codes "=") (spaced cookies) ≡ cookie_of key cookies
  find_spaced [] all = unfold find_part in refl
  find_spaced (c ∷ cookies) (one, all) =
      find_entry c (b' ' ∷ entry_text c) (spaced cookies) cookies one
        (trim_space (entry_text c) ∙ trim_entry c one) (find_spaced cookies all)

  -- In the text of cookies whose names have no space and no sign of the syntax, and whose values
  -- have no separator, the lookup of such a name finds the value of the first cookie of that name,
  -- and nothing if there is none.
  pub find_cookie-cookie_text :
      (cookies : List Cookie)
      → All IsCookie cookies
      → find_cookie key (cookie_text cookies) ≡ cookie_of key cookies
  unfolding find_cookie
  find_cookie-cookie_text [] all = find_empty key
  find_cookie-cookie_text (c ∷ cookies) (one, all) =
      ap (find_part (key ++ codes "="))
        (split_cookies (entry_text c) cookies (entry-Avoids c one) all)
      ∙ find_entry c (entry_text c) (spaced cookies) cookies one (trim_entry c one)
          (find_spaced cookies all)
