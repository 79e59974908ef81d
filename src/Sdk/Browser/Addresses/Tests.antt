-- ===== src/Sdk/Browser/Addresses/Tests.antt =====
-- Runs of the gathering of addresses.
use douyin_live.Prelude.{◌≡◌, refl, true, false, List, [], ◌∷◌, ◌++◌, Option, some, map}
use douyin_live.Sdk.Text.{Text, codes, same_text}
use douyin_live.Sdk.Strings.{join_with, strip_start}
use douyin_live.Sdk.Browser.Addresses.{candidate, no_candidate, has_text, gather}
use douyin_live.Sdk.Browser.Addresses.Distinct.{IsDistinct, names, gather-IsDistinct}

-- A test for addresses that takes what stands behind `ip:`.
abbrev behind_ip : Text → Option Text
behind_ip text = strip_start (codes "ip:") text

abbrev three_texts : List Text
three_texts = codes "ip:10.0.0.1" ∷ codes "udp" ∷ codes "ip:10.0.0.2" ∷ codes "ip:10.0.0.1" ∷ []

gather_run :
    gather behind_ip false true (map candidate three_texts ++ no_candidate ∷ [])
    ≡ some (codes "10.0.0.1,10.0.0.2")
unfolding gather has_text join_with strip_start same_text
gather_run = refl

gather_early_run :
    gather behind_ip true true (map candidate three_texts ++ no_candidate ∷ []) ≡ some []
unfolding gather has_text join_with strip_start same_text
gather_early_run = refl

gather-IsDistinct_example :
    (list : List Text) × (gather behind_ip false true
        (map candidate three_texts ++ no_candidate ∷ candidate (codes "ip:10.0.0.9") ∷ [])
      ≡ some (join_with (codes ",") list))
    × IsDistinct list
    × ((a : Text) → has_text a list ≡ names behind_ip a three_texts)
gather-IsDistinct_example =
    gather-IsDistinct behind_ip three_texts (candidate (codes "ip:10.0.0.9") ∷ [])
      (λ h. cc, (λ h. cc, (λ h. cc, (λ h. cc, tt))))
