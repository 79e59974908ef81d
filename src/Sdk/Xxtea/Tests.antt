-- ===== src/Sdk/Xxtea/Tests.antt =====
-- Runs of the block cipher, and its theorems at concrete inputs.
use douyin_live.Prelude.{ℕ, ◌≡◌, refl, List, [], ◌∷◌, some, arith}
use douyin_live.Sdk.Xxtea.{
  mx, phase, encrypt_words, encrypt_pass, encrypt_passes, decrypt_words, decrypt_first,
  decrypt_pass, decrypt_passes, rounds, encrypt, decrypt,
}
use douyin_live.Sdk.Xxtea.Inverse.{decrypt-encrypt, decrypt_total}

abbrev sample_key : List ℕ
sample_key = 0x9474b8e8 ∷ 0xc73bca7d ∷ 0x53239142 ∷ 0xf3c3121a ∷ []

-- A published test vector of corrected block TEA.
encrypt_vector : encrypt (0 ∷ 0 ∷ []) (0 ∷ 0 ∷ 0 ∷ 0 ∷ []) ≡ 0x053704ab ∷ 0x575d8c80 ∷ []
unfolding encrypt encrypt_passes encrypt_pass encrypt_words rounds mx phase
encrypt_vector = refl

decrypt_vector : decrypt (0x053704ab ∷ 0x575d8c80 ∷ []) (0 ∷ 0 ∷ 0 ∷ 0 ∷ []) ≡ some (0 ∷ 0 ∷ [])
unfolding decrypt decrypt_passes decrypt_pass decrypt_words decrypt_first rounds mx phase
decrypt_vector = refl

decrypt-encrypt_example :
    decrypt (encrypt (1 ∷ 0xffff_ffff ∷ 3 ∷ []) sample_key) sample_key
    ≡ some (1 ∷ 0xffff_ffff ∷ 3 ∷ [])
decrypt-encrypt_example =
    decrypt-encrypt (1 ∷ 0xffff_ffff ∷ 3 ∷ []) sample_key (omega arith) (omega arith)

decrypt_total_example : (u : List ℕ) × (decrypt (5 ∷ 6 ∷ []) sample_key ≡ some u)
decrypt_total_example = decrypt_total (5 ∷ 6 ∷ []) sample_key
