-- ===== src/Sdk/Browser/Fonts/Tests.antt =====
-- Runs of the font report.
use douyin_live.Prelude.{◌≡◌, refl, sym, ◌∙◌, if◌then◌else◌, true}
use douyin_live.Sdk.Text.{Text, codes, same_text}
use douyin_live.Sdk.Browser.Fonts.{Size, fonts, fonts_text}
use douyin_live.Sdk.Browser.Fonts.Bits.{installed, fonts_text_injective}

-- Two documents where one font, tried with one generic font, is wider than the generic font.
abbrev wide_serif : Text → Size
wide_serif family = record {
  width = if same_text family (codes "Futura,serif") then 9 else 8;
  height = 72;
}

abbrev tall_monospace : Text → Size
tall_monospace family = record {
  width = 300;
  height = if same_text family (codes "Futura,monospace") then 81 else 72;
}

serif_report_run : fonts_text wide_serif true ≡ codes "800000"
unfolding fonts_text same_text
serif_report_run = refl

monospace_report_run : fonts_text tall_monospace true ≡ codes "800000"
unfolding fonts_text same_text
monospace_report_run = refl

fonts_text_injective_example : installed wide_serif fonts ≡ installed tall_monospace fonts
fonts_text_injective_example =
    fonts_text_injective wide_serif tall_monospace (serif_report_run ∙ sym monospace_report_run)
