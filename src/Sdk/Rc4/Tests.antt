-- ===== src/Sdk/Rc4/Tests.antt =====
-- Runs of the cipher, and its theorems at concrete inputs.
use douyin_live.Prelude.{◌≡◌, refl, sym, ◌∙◌, [], ◌∷◌, some, length, arith}
use douyin_live.Sdk.Text.{Text, IsBytes, codes}
use douyin_live.Sdk.Rc4.{identity_from, swap, schedule, crypt, sbox, rc4}
use douyin_live.Sdk.Rc4.Sbox.{IsSbox, sbox-IsSbox}
use douyin_live.Sdk.Rc4.Stream.{xor_from, rc4-xor_from}
use douyin_live.Sdk.Rc4.Laws.{rc4_twice, rc4-IsBytes}

abbrev key_text : Text
key_text = codes "Key"

abbrev plain_text : Text
plain_text = codes "Plaintext"

-- The published test vector of the cipher.
abbrev cipher_text : Text
cipher_text = 0xbb ∷ 0xf3 ∷ 0x16 ∷ 0xe8 ∷ 0xd9 ∷ 0x40 ∷ 0xaf ∷ 0x0a ∷ 0xd3 ∷ []

rc4_vector : rc4 key_text plain_text ≡ some cipher_text
unfolding rc4 sbox crypt schedule swap identity_from
rc4_vector = refl

rc4_twice_run : rc4 key_text cipher_text ≡ some plain_text
rc4_twice_run = rc4_twice key_text plain_text (omega arith) rc4_vector

rc4-xor_from_example : rc4 key_text plain_text ≡ some (xor_from key_text 0 plain_text)
rc4-xor_from_example = rc4-xor_from key_text plain_text (λ e. cc)

-- The cipher that is defined on permutations gives the published text too.
xor_from_vector : some (xor_from key_text 0 plain_text) ≡ some cipher_text
xor_from_vector = sym rc4-xor_from_example ∙ rc4_vector

sbox-IsSbox_run : IsSbox (sbox key_text)
sbox-IsSbox_run = sbox-IsSbox key_text

rc4-IsBytes_run :
    (out : Text) × (rc4 (7 ∷ []) plain_text ≡ some out)
    × IsBytes out
    × (length out ≡ length plain_text)
rc4-IsBytes_run = rc4-IsBytes (7 ∷ []) plain_text (λ e. cc) (omega arith)
