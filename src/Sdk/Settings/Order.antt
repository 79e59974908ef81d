-- ===== src/Sdk/Settings/Order.antt =====
-- Rules that were added first are tried first.
use douyin_live.Prelude.{
  ◌≡◌, refl, sym, ◌∙◌, ap, Bool, true, false, List, [], ◌∷◌, ◌++◌, append_assoc, append-nil, some,
  if◌then◌else◌, Bool-cases, inl, inr, map,
}
use douyin_live.Sdk.Text.{Text}
use douyin_live.Sdk.Requests.{Rule, apply_rules}
use douyin_live.Sdk.Settings.{add_rules}

-- Whether one of the rules matches.
abbrev matches : List Rule → Text → Bool
matches [] url = false
matches (rule ∷ rules) url = let later = matches rules url in if rule.test url then true else later

pub add_rules-map :
    (rule : Text → Text → Rule) (pairs : List (Text × Text)) (rules : List Rule)
    → add_rules rule (some pairs) rules ≡ rules ++ map (λ p. rule p.0 p.1) pairs
unfolding add_rules
add_rules-map rule [] rules = sym (append-nil rules)
add_rules-map rule (p ∷ pairs) rules =
    add_rules-map rule pairs (rules ++ rule p.0 p.1 ∷ [])
    ∙ append_assoc rules (rule p.0 p.1 ∷ []) (map (λ q. rule q.0 q.1) pairs)

apply_rules-append :
    (first second : List Rule) (url : Text)
    → apply_rules (first ++ second) url
      ≡ (if matches first url then apply_rules first url else apply_rules second url)
unfolding apply_rules
apply_rules-append [] second url = refl
apply_rules-append (rule ∷ first) second url = elim (Bool-cases (rule.test url)) [
  | inl fits ↦ rw fits refl
  | inr apart ↦ rw apart (apply_rules-append first second url)
]

-- Rules that are added later serve the URLs that no earlier rule matches.
pub apply_rules-add_rules :
    (rule : Text → Text → Rule) (pairs : List (Text × Text)) (rules : List Rule) (url : Text)
    → apply_rules (add_rules rule (some pairs) rules) url ≡ (
        if matches rules url
        then apply_rules rules url
        else apply_rules (map (λ p. rule p.0 p.1) pairs) url)
apply_rules-add_rules rule pairs rules url =
    ap (λ all. apply_rules all url) (add_rules-map rule pairs rules)
    ∙ apply_rules-append rules (map (λ p. rule p.0 p.1) pairs) url
