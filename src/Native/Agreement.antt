-- ===== src/Native/Agreement.antt =====
-- The Go signature agrees with the script's: on a stub of 32 lower-case hexadecimal digits, with
-- the same random bytes and the same counter, `SignWithValues` returns the text of `get_sign`.
use native.Mathlib.Nat.{mod-eq_of_lt}
use douyin_live.Prelude.{
  ℕ, zero, suc, ◌+◌, ◌*◌, ◌%◌, ◌^◌, ◌<◌, ◌≡◌, ◌≢◌, refl, sym, ◌∙◌, ap, ap₂, true, false, not, ◌&&◌,
  List, [], ◌∷◌, ◌++◌, some, arith, ◌==◌, ==_iff, if◌then◌else◌, length, get_or, bit_and, bit_or,
  bit_xor, mask_and, and_mask, xor_lt, or_fields, All-get_or, length-append, All-append,
}
use douyin_live.Prelude.Result.{ok}
use douyin_live.Sdk.Text.{Text, IsBytes, codes, char_unit}
use douyin_live.Sdk.Hex
use douyin_live.Sdk.Hex.{IsHex}
use douyin_live.Sdk.Hex.RoundTrip.{hex_decode-encode, decode-IsBytes}
use douyin_live.Sdk.Rc4.{rc4}
use douyin_live.Sdk.Base64.{encode, encode_named, named_alphabet}
use douyin_live.Sdk.Bogus.{
  Session, Draws, ubcode, xor_all, seal, sealed_text, md5_hex, flags, payload, x_bogus, get_sign,
}
use douyin_live.Sdk.Bogus.Judgement.{ubcode_idle}
use douyin_live.Native.{checksum, double_md5, payload_head, sign_bytes, sign_with_values}
use douyin_live.Native.Stdlib.{decode_string, new_cipher, xor_key_stream, encode_to_string}
use douyin_live.Native.Parts.{
  decode_string-decode, xor_key_stream-IsBytes, marked_alphabet, encode-encode_to_string,
}

checksum_lem : (bytes : List ℕ) (acc : ℕ) → checksum bytes acc ≡ xor_all bytes acc
unfolding checksum xor_all
checksum_lem [] acc = refl
checksum_lem (b ∷ bytes) acc = checksum_lem bytes (bit_xor acc b)

xor_all-lt : (bytes : List ℕ) (acc : ℕ) → IsBytes bytes → acc < 2 ^ 8 → xor_all bytes acc < 2 ^ 8
unfolding xor_all
xor_all-lt [] acc h p = p
xor_all-lt (b ∷ bytes) acc (hb, h) p = xor_all-lt bytes (bit_xor acc b) h (xor_lt 8 acc b p hb)

-- What is asked of the digest: its values are bytes.
abbrev pub IsDigest : (List ℕ → List ℕ) → Type 0
IsDigest md5 = (bytes : List ℕ) → IsBytes (md5 bytes)

-- The browser as the program runs the script: nothing was initialised, and no event was seen.
pub record IsIdle (s : Session) : Type 0 where
  pub fresh : s.initialized ≡ false
  pub no_moves : s.behaviour.moves ≡ 0
  pub no_clicks : s.behaviour.clicks ≡ 0
  pub no_keys : s.behaviour.keys ≡ 0
  pub no_touch : (not s.behaviour.touch_supported && s.behaviour.touch_seen) ≡ false

flag_bit : (n : ℕ) → n < 2 → bit_or 64 (n * 2 ^ 4) ≡ (if n == 1 then bit_or 64 16 else 64)
flag_bit zero h = refl
flag_bit (suc zero) h = refl
flag_bit (suc (suc n)) h = absurd (omega arith)

-- What the script's `seal` returns, from its parts.
seal_parts :
    (f k : ℕ) (head hidden : List ℕ) (c : ℕ) (out : Text)
    → xor_all head 0 ≡ c
    → f < 2 ^ 8
    → k < 2 ^ 8
    → rc4 (k ∷ []) (head ++ c ∷ []) ≡ some hidden
    → encode marked_alphabet (codes "=") (f ∷ k ∷ hidden) ≡ out
    → seal f head k ≡ some out
unfolding seal sealed_text encode_named named_alphabet
seal_parts f k head hidden c out sum hf hk hidden_is text =
    let unit_k : char_unit k ≡ k = mod-eq_of_lt (omega arith) in
    let unit_f : char_unit f ≡ f = mod-eq_of_lt (omega arith) in
    ap₂ (λ (u w : ℕ). sealed_text f k (rc4 (u ∷ []) (head ++ w ∷ []))) unit_k sum
    ∙ (ap (sealed_text f k) hidden_is
        ∙ ap some (
            ap₂ (λ (u w : ℕ). encode marked_alphabet (codes "=") (u ∷ w ∷ hidden)) unit_f unit_k
            ∙ text))

module _ (md5 : List ℕ → List ℕ) (digest : IsDigest md5) where
  hex_back : (bytes : List ℕ) → Hex.decode (md5_hex md5 bytes) ≡ md5 bytes
  unfolding md5_hex
  hex_back bytes = hex_decode-encode (md5 bytes) (digest bytes)

  -- Nine bytes: both programs fill in the same.
  payload_lem :
      (stub : Text) (s : Session) (d : Draws) (counter : ℕ)
      → IsIdle s
      → s.envcode ≡ 1
      → stub ≢ []
      → counter % 64 ≡ s.bogus_index % 64
      → payload md5 0 stub s d ≡ payload_head md5 counter (Hex.decode stub) d.payload
  unfolding payload payload_head double_md5
  payload_lem [] s d counter idle env ne same = absurd (ne refl)
  payload_lem (c ∷ r) s d counter idle env ne same =
      let index : bit_or 0 (bit_and 63 s.bogus_index) % 256 ≡ bit_and counter 63 = omega (
        arith,
        mask_and 6 s.bogus_index,
        and_mask 6 counter,
        or_fields 6 0 (bit_and 63 s.bogus_index),
      ) in
      let idle_code : ubcode s.behaviour ≡ 14 =
        ubcode_idle s.behaviour idle.no_moves idle.no_clicks idle.no_keys idle.no_touch in
      rw (hex_back [], hex_back (md5 []), hex_back (Hex.decode (c ∷ r)), index, env, idle_code) refl

  payload_head-IsBytes :
      (counter p : ℕ) (bytes : List ℕ)
      → p < 2 ^ 8
      → IsBytes (payload_head md5 counter bytes p) × (length (payload_head md5 counter bytes p) ≡ 9)
  unfolding payload_head double_md5
  payload_head-IsBytes counter p bytes h =
      let at : (l : List ℕ) (k : ℕ) → get_or (md5 l) k 0 < 2 ^ 8 =
        λ l k. All-get_or (λ c. c < 2 ^ 8) (md5 l) k 0 (digest l) (omega arith) in
      (
        (
          omega (arith, and_mask 6 counter),
          (
            omega arith,
            (
              omega arith,
              (
                omega arith,
                (at (md5 []) 14, (at (md5 []) 15, (at bytes 14, (at bytes 15, (h, tt))))),
              ),
            ),
          ),
        ),
        refl,
      )

  flags_lem :
      (s : Session) (d : Draws)
      → s.initialized ≡ false
      → d.flag < 2
      → flags md5 1 s d ≡ (if d.flag == 1 then bit_or 64 16 else 64)
  unfolding flags
  flags_lem s d fresh h = rw fresh (flag_bit d.flag h)

  -- Sealed by the script, or by Go: the same text.
  seal_lem :
      (f k : ℕ) (head : List ℕ)
      → f < 2 ^ 8
      → k < 2 ^ 8
      → IsBytes head
      → length head ≡ 9
      → (cipher : List ℕ) × (new_cipher (k ∷ []) ≡ some cipher)
        × (seal f head k
            ≡ some
                (encode_to_string (f ∷ k ∷ xor_key_stream cipher (head ++ checksum head 0 ∷ []))))
  seal_lem f k head hf hk hh len =
      let marked = head ++ checksum head 0 ∷ [] in
      let sum : xor_all head 0 ≡ checksum head 0 = sym (checksum_lem head 0) in
      let small : checksum head 0 < 2 ^ 8 = rw checksum_lem (xor_all-lt head 0 hh (omega arith)) in
      let bytes : IsBytes marked =
        All-append (λ c. c < 2 ^ 8) head (checksum head 0 ∷ []) hh (small, tt) in
      let (cipher, made, hidden_is, hidden_bytes, hidden_len) =
        xor_key_stream-IsBytes k marked bytes in
      let hidden = xor_key_stream cipher marked in
      let ten : length hidden ≡ 10 =
        hidden_len ∙ (length-append head (checksum head 0 ∷ []) ∙ omega arith) in
      let text : encode marked_alphabet (codes "=") (f ∷ k ∷ hidden)
          ≡ encode_to_string (f ∷ k ∷ hidden) =
        encode-encode_to_string (f ∷ k ∷ hidden) (hf, (hk, hidden_bytes)) (omega arith) in
      (
        cipher,
        made,
        seal_parts f k head hidden (checksum head 0) (encode_to_string (f ∷ k ∷ hidden)) sum hf hk
            hidden_is text,
      )

  -- With the script idle, the same counter modulo 64 and the same random bytes, both programs
  -- return the same text, on every stub of 32 lower-case hexadecimal digits.
  pub sign_with_values-get_sign :
      (stub : Text) (s : Session) (d : Draws) (counter : ℕ)
      → IsHex stub
      → length stub ≡ 32
      → IsIdle s
      → counter % 64 ≡ (s.bogus_index + 1) % 64
      → d.flag < 2
      → d.payload < 2 ^ 8
      → d.key < 2 ^ 8
      → (out : Text) × ((get_sign md5 stub d s).0 ≡ some out)
        × (sign_with_values md5 stub counter (d.flag == 1) d.payload d.key ≡ ok out)
  unfolding get_sign x_bogus sign_with_values sign_bytes
  sign_with_values-get_sign stub s d counter hex len idle same hf hp hk =
      let s' = record s { bogus_index = s.bogus_index + 1; envcode = 1 } in
      let stub_bytes = Hex.decode stub in
      let head = payload_head md5 counter stub_bytes d.payload in
      let f = if d.flag == 1 then bit_or 64 16 else 64 in
      let (head_bytes, nine) = payload_head-IsBytes counter d.payload stub_bytes hp in
      let small : f < 2 ^ 8 = ground arith in
      let (cipher, made, sealed) = seal_lem f d.key head small hk head_bytes nine in
      let filled : payload md5 0 stub s' d ≡ head =
        payload_lem stub s' d counter
          (record {
            fresh = idle.fresh;
            no_moves = idle.no_moves;
            no_clicks = idle.no_clicks;
            no_keys = idle.no_keys;
            no_touch = idle.no_touch;
          })
          refl (λ e. absurd (omega (arith, ap length e))) same in
      let marked : flags md5 1 s' d ≡ f = flags_lem s' d idle.fresh hf in
      let sixteen : (length stub_bytes == 16) ≡ true =
        (==_iff (length stub_bytes) 16).1 (omega (arith, decode-IsBytes stub)) in
      let decoded : decode_string stub ≡ some stub_bytes =
        decode_string-decode stub hex (omega arith) in
      (
        encode_to_string (f ∷ d.key ∷ xor_key_stream cipher (head ++ checksum head 0 ∷ [])),
        rw (filled, marked) sealed,
        rw (decoded, sixteen, made) refl,
      )
