-- ===== src/Sdk/Browser/Graphics/Kept.antt =====
-- The reports on the graphics that are kept.
use douyin_live.Prelude.{◌≡◌, ◌⊎◌, inl, inr, [], Option, none, some, arith, Option-cases}
use douyin_live.Sdk.Browser.Report.{Report}
use douyin_live.Sdk.Browser.Graphics.{Graphics, webgl_info, find_context}

-- Once a report has been made from a context, later calls give it again, whatever the browser
-- answers then; without a context the report is empty and the next call asks again.
pub webgl_info_kept :
    {C V : Type 0} (page later : Graphics C V) (report : Report V) (kept : Option (Report V))
    → webgl_info page none ≡ some (report, kept)
    → (webgl_info later kept ≡ some (report, kept)) ⊎ ((report ≡ []) × (kept ≡ none))
unfolding webgl_info
webgl_info_kept page later report kept e = elim (Option-cases (find_context page)) [
  | inl away ↦ inr (ground (arith, away))
  | inr (c, found) ↦ inl (ground (arith, found))
]
