-- ===== src/Sdk/Keys/Tests.antt =====
-- Runs of the sorted forms, and their theorem at a concrete object.
use mathlib.Core.List.{Permᴰ}
use douyin_live.Prelude.{◌≡◌, refl, Bool, true, [], ◌∷◌}
use douyin_live.Sdk.Text.{Text, codes}
use douyin_live.Sdk.Keys.{sorted_text}
use douyin_live.Sdk.Keys.Order.{sorted_text-Perm}

abbrev kept : Text → Bool
kept text = true

abbrev show : Text → Text
show text = text

-- Every value is the key with a sign.
abbrev read : Text → Text
read key = b'!' ∷ key

sorted :
    sorted_text kept show (record { keys = codes "b" ∷ codes "aid" ∷ []; read = read })
    ≡ codes "aid=!aid&b=!b&"
unfolding sorted_text
sorted = refl

sorted_text-Perm_example :
    sorted_text kept show (record { keys = codes "b" ∷ codes "aid" ∷ []; read = read })
    ≡ sorted_text kept show (record { keys = codes "aid" ∷ codes "b" ∷ []; read = read })
sorted_text-Perm_example =
    sorted_text-Perm kept show read (codes "b" ∷ codes "aid" ∷ []) (codes "aid" ∷ codes "b" ∷ [])
      ∣ Permᴰ.swap refl refl ∣₁
