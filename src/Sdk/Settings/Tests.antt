-- ===== src/Sdk/Settings/Tests.antt =====
-- Runs of the settings.
use douyin_live.Prelude.{◌≡◌, refl, false, [], ◌∷◌, some, none}
use douyin_live.Sdk.Text.{codes, same_text}
use douyin_live.Sdk.Strings.{split_at}
use douyin_live.Sdk.Settings.{find_test_id, region_conf, pdf_version}

test_id : find_test_id (λ t. t) (codes "a=1" ∷ codes "__ac_testid=7" ∷ []) ≡ some (some (codes "7"))
unfolding find_test_id same_text split_at
test_id = refl

unknown_region :
    region_conf (record { boe = false; dev = false; boe_host = []; region = codes "sg" }) ≡ none
unfolding region_conf same_text
unknown_region = refl

newest_control : pdf_version (some (λ name. same_text name (codes "PDF.PdfCtrl.5"))) ≡ codes "5"
unfolding pdf_version same_text
newest_control = refl
