-- ===== src/Sdk/Bogus/Tests.antt =====
-- Runs of the signature of the script, with a digest that is constant.
use douyin_live.Prelude.{ℕ, ◌+◌, ◌≡◌, refl, true, false, List, some, replicate}
use douyin_live.Sdk.Text.{Text, codes}
use douyin_live.Sdk.Rc4.{identity_from, swap, schedule, crypt, sbox, rc4}
use douyin_live.Sdk.Base64.{
  char_at, group, digit₁, digit₂, digit₃, digit₄, encode, encode_named, named_alphabet,
}
use douyin_live.Sdk.Hex
use douyin_live.Sdk.Hex.{hex_high, hex_low, hex_value}
use douyin_live.Sdk.Bogus.{
  Behaviour, Session, judge, ubcode, base32_digit, behaviour_text, xor_all, seal, sealed_text,
  md5_hex, flags, payload, x_bogus, get_sign,
}
use douyin_live.Sdk.Bogus.Judgement.{flag_sum, judge_lem}

abbrev idle : Behaviour
idle = record {
  moves = 0;
  clicks = 0;
  keys = 0;
  moves_fast = false;
  keys_fast = false;
  touch_supported = true;
  touch_seen = false;
}

-- No event: the flags 2, 4 and 8, and the text of 15 in base 32.
ubcode_sample : ubcode idle ≡ 14
unfolding ubcode judge
ubcode_sample = refl

behaviour_sample : behaviour_text idle ≡ codes "00f"
unfolding behaviour_text judge base32_digit
behaviour_sample = refl

judge_lem_run : (ubcode idle ≡ flag_sum idle) × ((judge idle).0 ≡ flag_sum idle + 1)
judge_lem_run = judge_lem idle

abbrev digest : List ℕ → List ℕ
digest bytes = replicate 16 7

abbrev stub : Text
stub = codes "d41d8cd98f00b204e9800998ecf8427e"

abbrev fresh : Session
fresh = record { bogus_index = 0; envcode = 0; initialized = false; behaviour = idle }

-- The index goes up, `envcode` is set, and the text has 16 characters.
get_sign_sample :
    get_sign digest stub (record { flag = 1; payload = 3; key = 200 }) fresh
    ≡ (some (codes "68NbnYeUeHg2fkey"), record fresh { bogus_index = 1; envcode = 1 })
unfolding get_sign x_bogus seal sealed_text flags payload md5_hex Hex.encode Hex.decode hex_high
    hex_low hex_value ubcode judge xor_all rc4 sbox schedule crypt swap identity_from encode
    encode_named named_alphabet char_at group digit₁ digit₂ digit₃ digit₄
get_sign_sample = refl
