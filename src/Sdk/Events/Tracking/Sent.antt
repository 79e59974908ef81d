-- ===== src/Sdk/Events/Tracking/Sent.antt =====
-- While the amount of a unit of time lasts, everything that is taken out of the lists is sent.
use douyin_live.Prelude.{ℕ, ◌+◌, ◌*◌, ◌<◌, ◌≡◌, true, List, [], ◌∷◌, ◌++◌, if◌then◌else◌}
use douyin_live.Sdk.Events.Tracking.{Point, Batch, Page, amount}
use douyin_live.Sdk.Events.Tracking.Kept.{taken_clicks}

module _ {C : Type 0} where
  -- The clicks of the batches that were sent.
  abbrev pub sent_clicks : List (Batch C) → List (Point C)
  sent_clicks [] = []
  sent_clicks (b ∷ batches) = (if b.sent then b.clicks else []) ++ sent_clicks batches

  -- There is an address, the lists and `n` bytes more do not use up the amount of the unit, and no
  -- click was discarded so far.
  pub record Fits (n : ℕ) (page : Page C) : Type 0 where
    pub has_url : page.has_report_url ≡ true
    pub room : page.acc + amount page + n < page.unit_amount * 1024
    pub all_sent : sent_clicks page.taken ≡ taken_clicks page.taken
