-- ===== src/Sdk/Profile.antt =====
-- jsScript/webmssdk.js, lines 5110 to 5127: what is found out about the browser is sent in the query
-- of an address, encrypted under a key that is cut from a random identifier. `encodeURIComponent` is
-- a parameter; the answer to the request is not modelled.
pub mod Opened
mod Tests
use douyin_live.Prelude.{
  ℕ, ◌+◌, ◌/◌, ◌%◌, Bool, false, List, [], ◌∷◌, ◌++◌, Option, none, some, if◌then◌else◌, get_or,
  take, drop,
}
use douyin_live.Prelude.Result.{Result, ◌>>=◌, ok, err}
use douyin_live.Sdk.Text.{Text, codes}
use douyin_live.Sdk.Base64.{encode_with}
use douyin_live.Sdk.Cipher.{Fault, encrypt_text}

-- What was found out: nothing, a truth value, or what is read as text.
pub data Reply : Type 0 where
  no_answer : Reply
  flag_answer : Bool → Reply
  text_answer : Text → Reply

-- `p` says that the answer comes later.
pub record Question : Type 0 where
  pub p : Bool
  pub r : Reply

-- `_0x5af46a`
unfoldable pub answer_text : Reply → Text
answer_text no_answer = []
answer_text (flag_answer b) = if b then codes "1" else codes "0"
answer_text (text_answer text) = text

-- The answers that came later, in their order; one that is missing is undefined.
unfoldable pub fill_answers : List Question → List Reply → List Question
fill_answers [] later = []
fill_answers (q ∷ questions) [] =
    let rest = fill_answers questions [] in (if q.p then record q { r = no_answer } else q) ∷ rest
fill_answers (q ∷ questions) (a ∷ later) =
    let taken = fill_answers questions later in
    let kept = fill_answers questions (a ∷ later) in
    if q.p then record q { r = a } ∷ taken else q ∷ kept

-- The answers with their signs, and the time.
unfoldable pub answers_text : List Question → Text → Text
unfolding answer_text
answers_text [] now = now
answers_text (q ∷ questions) now = answer_text q.r ++ (codes "^^" ++ answers_text questions now)

-- From the unit at the place 3: how many units behind it are the key.
unfoldable pub profile_key : Text → Text
profile_key id = let c = get_or id 3 0 in take (c / 8 + c % 8) (drop 4 id)

-- `_0x328bde` with its own alphabet.
unfoldable pub sealed_profile : Text → Text → Result Fault Text
unfolding profile_key
sealed_profile text id = do
  cipher ← encrypt_text text (profile_key id)
  ok (encode_with (cipher ++ id) [] false)

abbrev pub profile_url : Text
profile_url = codes "https://mssdk.bytedance.com/websdk/v1/getInfo"

-- The address that `_0x5c0cdd` asks for, with `none` where the later answers are not there.
unfoldable pub profile_address :
    (Text → Text) → List Question → Option (List Reply) → Text → Text → Result Fault Text
unfolding fill_answers answers_text sealed_profile
profile_address encode_component questions later now id = do
  sealed ←
      sealed_profile
        (answers_text (elim later [ none ↦ questions | some list ↦ fill_answers questions list ])
          now)
        id
  ok (profile_url ++ (codes "?q=" ++ (encode_component sealed ++ codes "&")))
