-- ===== src/Sdk/Packer.antt =====
-- jsScript/webmssdk.js, lines 4185 to 4213: words of 32 bits as text, word by word. The function
-- that packs the next word is one of three, in turn: 96 bits make sixteen characters, and the first
-- two keep the word, whose last bits go into the text of the next. A word stands for its 32-bit
-- pattern; `x << k` of which only the lower 30 bits are read is `x * 2 ^ k`.
pub mod Groups
mod Tests
use douyin_live.Prelude.{
  ℕ, ◌+◌, ◌-◌, ◌*◌, ◌/◌, ◌%◌, ◌^◌, List, [], ◌∷◌, ◌++◌, ltb, if◌then◌else◌, bit_and, bit_or,
}
use douyin_live.Sdk.Text.{Text}

-- `_0x33f406`
unfoldable pub sextet_char : ℕ → ℕ
sextet_char x =
    let n = bit_and x 63 in
    if ltb n 26 then n + 65 else if ltb n 52 then n + 71 else if ltb n 62 then n - 4 else n - 17

-- `_0x4da136`
unfoldable pub five_chars : ℕ → Text
five_chars x =
    sextet_char (x / 2 ^ 24)
    ∷ sextet_char (x / 2 ^ 18)
    ∷ sextet_char (x / 2 ^ 12)
    ∷ sextet_char (x / 2 ^ 6)
    ∷ sextet_char x
    ∷ []

pub data Turn : Type 0 where
  first second third : Turn

-- Which function is next, and the last word.
pub record Packer : Type 0 where
  pub turn : Turn
  pub kept : ℕ

unfoldable pub pack_at : Turn → ℕ → ℕ → Text × Packer
unfolding five_chars
pack_at first kept w = (five_chars (w / 2 ^ 2), record { turn = second; kept = w })
pack_at second kept w =
    (five_chars (bit_or (kept * 2 ^ 28) (w / 2 ^ 4)), record { turn = third; kept = w })
pack_at third kept w = (
  five_chars (bit_or (kept * 2 ^ 26) (w / 2 ^ 6)) ++ sextet_char w ∷ [],
  record { turn = first; kept = kept },
)

unfoldable pub pack : ℕ → Packer → Text × Packer
unfolding pack_at
pack w p = pack_at p.turn p.kept w

-- Words one after the other.
unfoldable pub pack_all : List ℕ → Packer → Text × Packer
unfolding pack
pack_all [] p = ([], p)
pack_all (w ∷ words) p =
    let (text, q) = pack w p in let (more, r) = pack_all words q in (text ++ more, r)
