-- ===== src/Sdk/Rc4.antt =====
-- jsScript/webmssdk.js, `_0x21db29` (lines 5499 to 5517): the RC4 stream cipher of the script.
-- The array is a list; the two index variables and the array are the state of the loops.
pub mod Sbox
pub mod Laws
pub mod Stream
mod Tests
use douyin_live.Prelude.{
  ℕ, zero, suc, ◌+◌, ◌%◌, List, [], ◌∷◌, Option, none, some, length, get_or, set, bit_xor,
}
use douyin_live.Sdk.Text.{Text, char_unit}

-- `for (i = 0; i < 256; i++) s[i] = i`, counted by the rounds that are left.
unfoldable pub identity_from : ℕ → ℕ → List ℕ
identity_from zero i = []
identity_from (suc left) i = i ∷ identity_from left (i + 1)

-- `t = s[i]; s[i] = s[j]; s[j] = t`
unfoldable pub swap : List ℕ → ℕ → ℕ → List ℕ
swap s i j = set (set s i (get_or s j 0)) j (get_or s i 0)

-- The key schedule from round `i` on.
unfoldable pub schedule : Text → ℕ → ℕ → ℕ → List ℕ → List ℕ
schedule key zero i j s = s
schedule key (suc left) i j s =
    let j' = (j + get_or s i 0 + get_or key (i % length key) 0) % 256 in
    schedule key left (i + 1) j' (swap s i j')

-- The encryption loop over the characters of the message.
unfoldable pub crypt : Text → ℕ → ℕ → List ℕ → Text
crypt [] i j s = []
crypt (c ∷ message) i j s =
    let i' = (i + 1) % 256 in
    let j' = (j + get_or s i' 0) % 256 in
    let s' = swap s i' j' in
    let k = get_or s' ((get_or s' i' 0 + get_or s' j' 0) % 256) 0 in
    char_unit (bit_xor c k) ∷ crypt message i' j' s'

-- The array after the key schedule.
unfoldable pub sbox : Text → List ℕ
sbox key = schedule key 256 0 0 (identity_from 256 0)

-- `none`: with an empty key `i % key.length` is NaN. No caller passes one.
unfoldable pub rc4 : Text → Text → Option Text
rc4 [] message = none
rc4 (k ∷ key) message = some (crypt message 0 0 (sbox (k ∷ key)))
