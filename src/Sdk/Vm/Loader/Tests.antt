-- ===== src/Sdk/Vm/Loader/Tests.antt =====
-- Runs of the loader, and its theorem at a concrete program.
use douyin_live.Prelude.{◌≡◌, refl, [], ◌∷◌, ◌++◌, arith}
use douyin_live.Prelude.Result.{ok, err}
use douyin_live.Sdk.Text.{codes}
use douyin_live.Sdk.Vm.Loader.{
  Program, mhe, ve, is_digit, digit_value, parse_from, parse_hex, read_hex, read_varint, read_key,
  read_code, read_chars, read_strings, read_body, load,
}
use douyin_live.Sdk.Vm.Loader.Assemble.{assemble}
use douyin_live.Sdk.Vm.Loader.RoundTrip.{load-assemble}

abbrev sample : Program
sample = record { code = 3 ∷ 5 ∷ 66 ∷ []; strings = codes "a" ∷ []; entry = 0 }

-- The key 0x1b stands in the bytes 3, 2, 1 and 0.
load-sample :
    load
      (codes "484e4f4a403f5243000000000302010000000000000000000000000303054200010" ++ codes "17a")
    ≡ ok sample
unfolding load parse_hex parse_from is_digit digit_value read_hex read_varint read_key read_code
    read_chars read_strings read_body
load-sample = refl

load_no_magic : load (codes "484e4f4b403f5243000000") ≡ err mhe
unfolding load parse_hex parse_from is_digit digit_value
load_no_magic = refl

load_version : load (codes "484e4f4a403f5243010000") ≡ err ve
unfolding load parse_hex parse_from is_digit digit_value
load_version = refl

load-assemble_example : load (assemble 27 7 9 sample) ≡ ok sample
load-assemble_example = load-assemble 27 7 9 sample (omega arith) (omega arith)
