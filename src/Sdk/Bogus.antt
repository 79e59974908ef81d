-- ===== src/Sdk/Bogus.antt =====
-- jsScript/webmssdk.js: the X-Bogus signature. `_0x26d461` (lines 5784 to 5810) judges the user's
-- behaviour, `_0x1633f2` (5831 to 5857) fills nine bytes, `_0x4145f8` (5816 to 5829) seals them,
-- and `get_sign` (7007 to 7012, by way of `_0x34c70a`) asks for the signature of a WebSocket.
-- A value of `Math.random` is an argument: the byte or the bit that the script makes of it. The
-- digest of bytes is the parameter `md5`.
pub mod Judgement
pub mod Bytes
mod Tests
use Prim.Native.String.{String}
use douyin_live.Prelude.{
  ℕ, ◌+◌, ◌*◌, ◌/◌, ◌%◌, ◌^◌, Bool, true, false, ◌&&◌, not, List, [], ◌∷◌, ◌++◌, Option, none, some,
  ◌==◌, ltb, if◌then◌else◌, get_or, bit_and, bit_or, bit_xor,
}
use douyin_live.Sdk.Text.{Text, codes, char_unit}
use douyin_live.Sdk.Rc4.{rc4}
use douyin_live.Sdk.Base64.{encode_named}
use douyin_live.Sdk.Hex

-- What the judgement of the behaviour reads: the lengths of the three lists of events, the two
-- comparisons of mean speeds (made in floating point), whether touch events can be made, and
-- whether one was seen.
pub record Behaviour : Type 0 where
  pub moves : ℕ
  pub clicks : ℕ
  pub keys : ℕ
  pub moves_fast : Bool
  pub keys_fast : Bool
  pub touch_supported : Bool
  pub touch_seen : Bool

-- `code |= flag, ubcode |= flag` if a test holds.
abbrev pub add_flag : Bool → ℕ → ℕ × ℕ → ℕ × ℕ
add_flag true flag (code, bits) = (bit_or code flag, bit_or bits flag)
add_flag false flag c = c

-- The two numbers of `_0x26d461` after its tests: `code`, which starts at 1, and `ubcode`.
unfoldable pub judge : Behaviour → ℕ × ℕ
judge b =
    let c₁ = add_flag (not b.touch_supported && b.touch_seen) 64 (1, 0) in
    let c₂ = if b.moves == 0 then add_flag true 2 c₁ else add_flag b.moves_fast 16 c₁ in
    let c₃ = add_flag (b.clicks == 0) 4 c₂ in
    if b.keys == 0 then add_flag true 8 c₃ else add_flag b.keys_fast 32 c₃

-- The value that is stored as `ubcode`.
unfoldable pub ubcode : Behaviour → ℕ
unfolding judge
ubcode b = (judge b).1

-- A digit of `toString(32)`.
unfoldable pub base32_digit : ℕ → ℕ
base32_digit d = if ltb d 10 then 48 + d else 87 + d

-- The returned text: `toString(32)`, of one or two digits here, filled up to three.
unfoldable pub behaviour_text : Behaviour → Text
behaviour_text b =
    let n = (judge b).0 in
    let short = base32_digit n ∷ [] in
    let long = base32_digit (n / 32) ∷ base32_digit (n % 32) ∷ [] in
    if ltb n 32 then codes "00" ++ short else codes "0" ++ long

-- The loop that copies the bytes and takes their exclusive or.
unfoldable pub xor_all : List ℕ → ℕ → ℕ
xor_all [] acc = acc
xor_all (b ∷ bytes) acc = xor_all bytes (bit_xor acc b)

-- The text of the flags, the key and the hidden bytes, in the alphabet of the script.
unfoldable pub sealed_text : ℕ → ℕ → Option Text → Option Text
sealed_text flags key none = none
sealed_text flags key (some hidden) = encode_named (char_unit flags ∷ char_unit key ∷ hidden) "s1"

-- `_0x4145f8(flags, bytes)`; `key` is `255 & Math.floor(255 * Math.random())`.
unfoldable pub seal : ℕ → List ℕ → ℕ → Option Text
seal flags bytes key =
    sealed_text flags key (rc4 (char_unit key ∷ []) (bytes ++ xor_all bytes 0 ∷ []))

-- The script's state that a signature reads and changes.
pub record Session : Type 0 where
  pub bogus_index : ℕ
  pub envcode : ℕ
  pub initialized : Bool
  pub behaviour : Behaviour

-- The values of `Math.random` in their order: `1 & Math.floor(100 * r)`, then twice
-- `255 & Math.floor(255 * r)`.
pub record Draws : Type 0 where
  pub flag : ℕ
  pub payload : ℕ
  pub key : ℕ

module _ (md5 : List ℕ → List ℕ) where
  -- `_0x5dd467` of bytes: the digest in hexadecimal.
  unfoldable pub md5_hex : List ℕ → Text
  md5_hex bytes = Hex.encode (md5 bytes)

  -- The nine bytes and the flags. `channel` is the argument that is 0 for `get_sign`, `body` is
  -- always replaced by the empty text, and an empty `stub` by 32 zeros.
  unfoldable pub flags : ℕ → Session → Draws → ℕ
  flags kind s d =
      bit_or (bit_or (kind * 2 ^ 6) ((if s.initialized then 1 else 0) * 2 ^ 5)) (d.flag * 2 ^ 4)

  unfoldable pub payload : ℕ → Text → Session → Draws → List ℕ
  payload channel stub s d =
      let empty = Hex.decode (md5_hex (Hex.decode (md5_hex []))) in
      let given = Hex.decode (
        md5_hex (
          Hex.decode
            (elim stub [ [] ↦ codes "00000000000000000000000000000000" | c ∷ r ↦ c ∷ r ]))) in
      bit_or (channel * 2 ^ 6) (bit_and 63 s.bogus_index) % 2 ^ 8
      ∷ bit_and (s.envcode / 2 ^ 8) 255
      ∷ bit_and 255 s.envcode
      ∷ ubcode s.behaviour % 2 ^ 8
      ∷ get_or empty 14 0
      ∷ get_or empty 15 0
      ∷ get_or given 14 0
      ∷ get_or given 15 0
      ∷ d.payload
      ∷ []

  -- `_0x1633f2`: the index goes up and `envcode` is set to 1 before the bytes are filled.
  unfoldable pub x_bogus : ℕ → ℕ → Text → Draws → Session → Option Text × Session
  x_bogus kind channel stub d s =
      let s' = record s { bogus_index = s.bogus_index + 1; envcode = 1 } in
      (seal (flags kind s' d) (payload channel stub s' d) d.key, s')

  -- `get_sign(md5)`: kind 1 is the WebSocket, and the channel is 0.
  unfoldable pub get_sign : Text → Draws → Session → Option Text × Session
  get_sign stub d s = x_bogus 1 0 stub d s
