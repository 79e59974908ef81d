-- ===== src/Sdk/Packer/Tests.antt =====
-- Words as text, and the theorem at concrete ones.
use douyin_live.Prelude.{ℕ, ◌≡◌, refl, List, [], ◌∷◌, arith}
use douyin_live.Sdk.Text.{codes}
use douyin_live.Sdk.Base64
use douyin_live.Sdk.Packer.{first, sextet_char, five_chars, pack, pack_all}
use douyin_live.Sdk.Packer.Groups.{packer_alphabet, bytes_of_words, pack_all-encode}

abbrev three : List ℕ
three = 0x4d616e20 ∷ 0x6973fffe ∷ 0xff00ff3f ∷ []

pack_sample : (pack_all three (record { turn = first; kept = 0 })).0 ≡ codes "TWFuIGlz..7.AP8."
unfolding pack_all pack five_chars sextet_char
pack_sample = refl

pack_all-encode_example :
    let (text, packer) = pack_all three (record { turn = first; kept = 0 }) in
    (text ≡ Base64.encode packer_alphabet (codes "=") (bytes_of_words three))
    × (packer.turn ≡ first)
pack_all-encode_example = pack_all-encode 0 three (omega arith) (omega arith)
