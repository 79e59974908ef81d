-- ===== src/Sdk/Requests/Rules.antt =====
-- A rewritten URL, and the two tests for the host of the region.
use douyin_live.Prelude.{
  ◌≡◌, refl, ap, Bool, false, [], ◌∷◌, List, Option, none, some, if◌then◌else◌,
}
use douyin_live.Sdk.Text.{Text}
use douyin_live.Sdk.Strings.{Avoids, contains}
use douyin_live.Sdk.Url.{query_of}
use douyin_live.Sdk.Url.Parts.{quote, StartsWithQuery, escape_quotes-safe}
use douyin_live.Sdk.Requests.{
  Region, sec, asgw, has_host, channel, is_own_url, Rule, apply_rules, rewrite_url,
}

-- Whatever rules are applied, the query of the rewritten URL has no quote, if it does not start the
-- URL.
pub rewrite_url-safe :
    (decode_component encode_uri : Text → Option Text) (rules : List Rule) (url result : Text)
    → rewrite_url decode_component encode_uri rules url ≡ some result
    → (StartsWithQuery result → ⊥)
    → Avoids quote (query_of result)
unfolding rewrite_url
rewrite_url-safe decode_component encode_uri rules url result e h =
    escape_quotes-safe decode_component encode_uri (apply_rules rules url) result e h

has_host-nil : (host : Option Text) → has_host host [] ≡ false
unfolding has_host contains
has_host-nil none = refl
has_host-nil (some []) = refl
has_host-nil (some (c ∷ host)) = refl

-- The channel of a URL is that of the region exactly when it is a URL of the region's host.
pub channel-is_own_url :
    (region : Region) (url : Text)
    → (own : Bool) × (is_own_url (some region) url ≡ some own)
      × (channel (some region) url ≡ (if own then sec else asgw))
unfolding channel is_own_url has_host contains
channel-is_own_url region (c ∷ url) = (has_host region.host (c ∷ url), refl, refl)
channel-is_own_url region [] =
    (false, refl, ap (λ b. if b then sec else asgw) (has_host-nil region.host))
