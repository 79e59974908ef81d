-- ===== src/Sdk/Hashes.antt =====
-- jsScript/webmssdk.js, lines 4061 to 4067, 4702 to 4728, 4806 to 4833 and 5044 to 5064: the hashes
-- of texts, the random identifier with its check digits, and the hash of a drawing. `h * 65599 + c
-- >>> 0` is a number modulo 2 ^ 32; no step leaves the integers that a floating-point number holds.
pub mod Polynomial
pub mod Points
pub mod Digits
mod Tests
use douyin_live.Prelude.{
  ◌≡◌, refl, ℕ, zero, suc, ◌+◌, ◌*◌, ◌/◌, ◌%◌, ◌^◌, Bool, true, false, ◌&&◌, List, [], ◌∷◌, ◌++◌,
  Option, none, some, ltb, leb, ◌==◌, if◌then◌else◌, length, get_or, take, drop, bit_and, bit_or,
  bit_xor,
}
use douyin_live.Sdk.Text.{Text, codes, same_text}

abbrev pub letters_and_digits : Text
letters_and_digits = codes "0123456789abcdefghijklmnopqrstuvwxyzABCDEFGHIJKLMNOPQRSTUVWXYZ"

unfoldable pub chosen : Text → List ℕ → Text
chosen alphabet [] = []
chosen alphabet (draw ∷ draws) = get_or alphabet draw 0 ∷ chosen alphabet draws

-- `_0x325f58`, from the places in the alphabet that `Math.random` chooses, one for each character.
unfoldable pub random_text : List ℕ → Text → Text
unfolding chosen
random_text draws [] = chosen letters_and_digits draws
random_text draws (c ∷ alphabet) = chosen (c ∷ alphabet) draws

unfoldable pub hash_step : ℕ → ℕ → ℕ
hash_step h c = (65599 * h + c) % 2 ^ 32

-- `_0x246aeb`
unfoldable pub hash_units : ℕ → Text → ℕ
unfolding hash_step
hash_units h [] = h
hash_units h (c ∷ text) = hash_units (hash_step h c) text

-- `_0x184783`
unfoldable pub hash_xor : ℕ → Text → ℕ
hash_xor h [] = h
hash_xor h (c ∷ text) = hash_xor (65599 * bit_xor (h % 2 ^ 32) c % 2 ^ 32) text

-- The test of a unit and the one behind it for a pair of surrogates.
unfoldable pub starts_pair : ℕ → ℕ → Bool
starts_pair c d = leb 55296 c && leb c 56319 && (bit_and 64512 d == 56320)

unfoldable pub point_of : ℕ → ℕ → ℕ
point_of c d = bit_and 1023 c * 2 ^ 10 + bit_and 1023 d + 65536

-- `_0xf119da`: a pair counts as one.
unfoldable pub hash_points : ℕ → Text → ℕ
unfolding hash_step starts_pair point_of
hash_points h [] = h
hash_points h (c ∷ []) = hash_step h c
hash_points h (c ∷ d ∷ text) =
    let pair = hash_points (hash_step h (point_of c d)) text in
    let single = hash_points (hash_step h c) (d ∷ text) in if starts_pair c d then pair else single

-- `toString()` of a number below 10 ^ 10, the first digit first.
unfoldable pub decimal_from : ℕ → ℕ → Text → Text
decimal_from zero n digits = digits
decimal_from (suc left) n digits =
    let more = decimal_from left (n / 10) ((48 + n % 10) ∷ digits) in
    if n == 0 then digits else more

unfoldable pub decimal : ℕ → Text
decimal n = if n == 0 then codes "0" else decimal_from 10 n []

-- `toString(16)` of a number below 16.
unfoldable pub hex_char : ℕ → ℕ
hex_char n = get_or (codes "0123456789abcdef") n 0

-- `replace` with a random number below 16, the next of `draw`, for each `x` and `y` of the pattern.
unfoldable pub fill_pattern : Text → (ℕ → ℕ) → ℕ → Text
unfolding hex_char
fill_pattern [] draw i = []
fill_pattern (p ∷ pattern) draw i =
    let next = fill_pattern pattern draw (suc i) in
    let same = fill_pattern pattern draw i in
    if p == b'x'
    then hex_char (draw i) ∷ next
    else if p == b'y'
    then hex_char (bit_or (bit_and 3 (draw i)) 8) ∷ next
    else p ∷ same

abbrev pub id_pattern : Text
id_pattern = codes "xxxxxxxxxxxx4xxxyxxxxxxxxxxxxxxx"

-- `_0x2e02ca`
unfoldable pub random_id : (ℕ → ℕ) → Text
unfolding fill_pattern
random_id draw = fill_pattern id_pattern draw 0

-- `_0x2e2fa0`: an identifier ends with two digits of its hash.
unfoldable pub has_check_digits : Text → Bool
unfolding same_text
has_check_digits id =
    length id == 34
    && same_text (take 2 (decimal (hash_units 0 (take 32 id)))) (take 2 (drop 32 id))

unfoldable pub add_check_digits : Text → Text
add_check_digits id = take 34 (id ++ decimal (hash_units 0 id))

-- `_0x178d7c`, from the stored identifier (`none` is null or undefined): the identifier, and
-- whether it is stored anew.
unfoldable pub client_id : Option Text → Text → Text × Bool
unfolding has_check_digits add_check_digits
client_id none fresh = (add_check_digits fresh, true)
client_id (some stored) fresh =
    if has_check_digits stored then (stored, false) else (add_check_digits fresh, true)

-- The rounds of `_0xc6f828` on the address of the drawing.
unfoldable pub stir : ℕ → Text → ℕ → ℕ
unfolding hash_step
stir zero url h = h
stir (suc left) url h = stir left url (hash_step h (get_or url (h % length url) 0))

-- `_0xc6f828`, from the address that the canvas gives for the drawing; `none` is an exception. An
-- empty address has no units, and NaN becomes 0.
unfoldable pub hash_drawing : ℕ → Option Text → Option ℕ
unfolding stir
hash_drawing h none = none
hash_drawing h (some []) = some 0
hash_drawing h (some (c ∷ url)) = some (stir 32 (c ∷ url) h)

abbrev pub drawing_seed : ℕ
drawing_seed = 0xdeadbeef

-- `_0x18b4be` with `perf`, the cached hash and the drawing: the answer, `none` for -1, and the
-- cache. A cached 0 is computed again.
unfoldable pub drawing_hash : Bool → ℕ → Option Text → Option ℕ × ℕ
unfolding hash_drawing
drawing_hash perf (suc cached) drawing = (some (suc cached), suc cached)
drawing_hash true zero drawing = (none, 0)
drawing_hash false zero drawing = elim (hash_drawing drawing_seed drawing) [
  | none ↦ (none, 0)
  | some h ↦ (some h, h)
]

-- `_0x1a39c4`: the cache after it, `none` for an exception.
unfoldable pub fill_drawing_hash : ℕ → Option Text → Option ℕ
unfolding hash_drawing
fill_drawing_hash (suc cached) drawing = some (suc cached)
fill_drawing_hash zero drawing = hash_drawing drawing_seed drawing

-- The second call gives what the first one gave, and draws nothing, if that was a hash other than
-- 0.
pub drawing_hash_twice :
    (drawing again : Option Text) (perf : Bool) (h : ℕ)
    → drawing_hash false 0 drawing ≡ (some (suc h), suc h)
    → drawing_hash perf (drawing_hash false 0 drawing).1 again ≡ drawing_hash false 0 drawing
unfolding drawing_hash
drawing_hash_twice drawing again perf h e = rw e refl
