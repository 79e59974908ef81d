-- ===== src/Sdk/Storage/Tests.antt =====
-- Runs of the storages of a browser, where a storage is a list of at most two items and the jar is
-- the text of the cookies.
use douyin_live.Prelude.Result.{ok}
use douyin_live.Prelude.{
  ◌≡◌, refl, ap, true, List, [], ◌∷◌, Option, none, some, if◌then◌else◌, arith,
}
use douyin_live.Sdk.Text.{Text, codes, same_text, same_text_refl}
use douyin_live.Sdk.Utf8.{encode, all_units_below}
use douyin_live.Sdk.Cipher.{encrypt_text, seal_bytes, key_words}
use douyin_live.Sdk.Words.{to_text, to_words, words_of, fill_key, join_chars, chars_of, shift_in}
use douyin_live.Sdk.Xxtea.{encrypt, encrypt_passes, encrypt_pass, encrypt_words, mx, phase, rounds}
use douyin_live.Sdk.Strings.{split_at, strip_start}
use douyin_live.Sdk.Storage.{
  ends_cookie, absent, open_area, Web, find_cookie, read_item, read_cookie, write_item, remove_item,
  save, load, forget, switch_key, is_switched_on,
}
use douyin_live.Sdk.Storage.Items.{IsWeb, read_item-write_item, read_item-remove_item, load-save}
use douyin_live.Sdk.Storage.Cookies.{cookie_text, find_cookie-cookie_text}
use douyin_live.Sdk.Storage.Switch.{item_of, is_switched_on-item_of}

abbrev Items : Type 0
Items = List (Text × Text)

abbrev find_item : Text → Items → Option Text
find_item key [] = none
find_item key (item ∷ items) =
    let later = find_item key items in if same_text key item.0 then some item.1 else later

abbrev without : Text → Items → Items
without key [] = []
without key (item ∷ items) =
    let rest = without key items in if same_text key item.0 then rest else item ∷ rest

-- A storage of two items is full.
abbrev add_item : Text → Text → Items → Option Items
add_item key value [] = some ((key, value) ∷ [])
add_item key value (a ∷ []) = some ((key, value) ∷ a ∷ [])
add_item key value (a ∷ b ∷ items) = none

abbrev web : Web Items Text
web = record {
  get_item = find_item;
  set_item = add_item;
  drop_item = without;
  cookies = λ jar. some jar;
  set_cookie = λ text jar. jar;
  in_a_week = codes "later";
}

find_item-without : (key : Text) (items : Items) → find_item key (without key items) ≡ none
find_item-without key [] = refl
find_item-without key (item ∷ items) = ground (arith, find_item-without key items)

find_item-add_item :
    (key value : Text) (s s' : Items)
    → add_item key value s ≡ some s'
    → find_item key s' ≡ some value
find_item-add_item key value [] s' h =
    let same : (key, value) ∷ [] ≡ s' = cc in rw (← same, same_text_refl key) refl
find_item-add_item key value (a ∷ []) s' h =
    let same : (key, value) ∷ a ∷ [] ≡ s' = cc in rw (← same, same_text_refl key) refl
find_item-add_item key value (a ∷ b ∷ s) s' h =
    let no : ◌≡◌ {A = Option Items} none (some s') = h in cc

web-IsWeb : IsWeb web
web-IsWeb = record { get_set = find_item-add_item; get_drop = find_item-without }

abbrev jar : Text
jar = codes "a=1; sid=xyz=; sid=2"

abbrev full : Items
full = (codes "x", codes "1") ∷ (codes "y", codes "2") ∷ []

found : find_cookie (codes "sid") jar ≡ some (codes "xyz=")
unfolding find_cookie split_at strip_start
found = refl

-- The end of another name is no name.
not_found : find_cookie (codes "id") jar ≡ none
unfolding find_cookie split_at strip_start
not_found = refl

full-falls_through :
    let page =
      write_item web
        (codes "sid")
        (codes "v")
        (record { session = open_area full; local = open_area []; jar = jar }) in
    (read_item web (codes "sid") page ≡ some (codes "xyz=")) × (page.local ≡ open_area [])
unfolding write_item read_item same_text find_cookie split_at strip_start
full-falls_through = (refl, refl)

read_item-write_item_example :
    read_item web (codes "sid") (
      write_item web
        (codes "sid")
        (codes "v")
        (record { session = absent; local = open_area []; jar = jar }))
    ≡ some (codes "v")
read_item-write_item_example =
    read_item-write_item web web-IsWeb (codes "sid") jar absent (open_area []) b'v' [] (_, refl)

read_item-remove_item_run :
    let page =
      remove_item web
        (codes "x")
        (record { session = open_area full; local = open_area full; jar = jar }) in
    read_item web (codes "x") page ≡ read_cookie web (codes "x") page
read_item-remove_item_run =
    read_item-remove_item web web-IsWeb (codes "x") jar (open_area full) (open_area full) tt tt

load-save_run :
    let page =
      save web
        (codes "k")
        (codes "v")
        (record { session = absent; local = open_area []; jar = jar }) in
    (load web (codes "k") page ≡ some (codes "v"))
    × (load web (codes "k") (forget web (codes "k") page) ≡ none)
load-save_run = load-save web web-IsWeb (codes "k") jar absent (open_area []) (codes "v") (_, refl)

find_cookie-cookie_text_example :
    find_cookie
      (codes "sid")
      (cookie_text ((codes "a", codes "1") ∷ (codes "sid", codes "xyz=") ∷ []))
    ≡ some (codes "xyz=")
unfolding same_text ends_cookie
find_cookie-cookie_text_example =
    find_cookie-cookie_text (codes "sid") (refl, (refl, (refl, tt)))
      ((codes "a", codes "1") ∷ (codes "sid", codes "xyz=") ∷ [])
      (
        ((refl, tt), (refl, tt)),
        (((refl, (refl, (refl, tt))), (refl, (refl, (refl, (refl, tt))))), tt),
      )

abbrev key : Text
key = codes "abcdefgh"

-- The word `on` under the key.
abbrev cipher : Text
cipher = 0x22 ∷ 0x78 ∷ 0x15 ∷ 0xab ∷ 0xb4 ∷ 0xf ∷ 0xe6 ∷ 0x56 ∷ []

abbrev on_item : Text
on_item = item_of key cipher

there : find_item switch_key ((switch_key, on_item) ∷ []) ≡ some on_item
there = rw (same_text_refl switch_key) refl

encrypt_on :
    encrypt (28271 ∷ 2 ∷ []) (1684234849 ∷ 1751606885 ∷ 0 ∷ 0 ∷ []) ≡ 2870310946 ∷ 1457917876 ∷ []
unfolding encrypt encrypt_passes encrypt_pass encrypt_words mx phase rounds
encrypt_on = refl

seals : encrypt_text (codes "on") key ≡ ok cipher
unfolding encrypt_text encode all_units_below seal_bytes to_text to_words words_of key_words
    fill_key join_chars chars_of shift_in
seals = ap (λ w. ok (join_chars w)) encrypt_on

is_switched_on-item_of_example :
    is_switched_on web
      (record { session = absent; local = open_area ((switch_key, on_item) ∷ []); jar = jar })
    ≡ true
unfolding same_text encode all_units_below
is_switched_on-item_of_example =
    is_switched_on-item_of web absent ((switch_key, on_item) ∷ []) jar (codes "on") key (codes "on")
      key cipher (λ same. cc) there refl (omega arith, (omega arith, tt)) refl refl (omega arith)
      seals
