-- ===== src/Sdk/Browser/Plugins.antt =====
-- jsScript/webmssdk.js, lines 4595 to 4633: the reports on the plugins of the browser. The browser's
-- answers are parameters; `none` is an exception.
mod Tests
use douyin_live.Prelude.{
  ℕ, zero, suc, ◌+◌, ◌-◌, ◌≤◌, ◌≡◌, refl, arith, Bool, true, false, List, [], ◌∷◌, ◌++◌, Option,
  none, some, if◌then◌else◌, take, length, length-take, inl, inr, ◌⊎◌, ◌≢◌,
}
use douyin_live.Sdk.Text.{Text, codes}
use douyin_live.Sdk.Strings.{join_with}

List-cases : (list : Text) → (list ≡ []) ⊎ ((c : ℕ) × (rest : Text) × (list ≡ c ∷ rest))
List-cases [] = inl refl
List-cases (c ∷ rest) = inr (c, rest, refl)

pub record Plugin : Type 0 where
  pub name : Text
  -- Empty where the plugin has none.
  pub version : Text
  pub filename : Text
  -- The type of each item, with `none` for a missing item.
  pub types : List (Option Text)

unfoldable pub join_types : List (Option Text) → Text
join_types [] = []
join_types (none ∷ types) = join_types types
join_types (some type ∷ types) = type ++ join_types types

unfoldable pub plugin_text : Plugin → Text
unfolding join_types
plugin_text p = p.name ++ p.version ++ p.filename ++ join_types p.types

-- The texts of the plugins from place `i` on, `rounds` places. One that is missing or throws is
-- left out.
unfoldable pub plugin_texts : (ℕ → Option Plugin) → ℕ → ℕ → List Text
unfolding plugin_text
plugin_texts plugins zero i = []
plugin_texts plugins (suc rounds) i =
    let later = plugin_texts plugins rounds (suc i) in
    elim (plugins i) [ none ↦ later | some p ↦ plugin_text p ∷ later ]

-- `_0x1f9824`, with the text that was kept before (empty for none) and after it.
unfoldable pub plugins_text : (ℕ → Option Plugin) → Text → Text × Text
unfolding plugin_texts join_with
plugins_text plugins (c ∷ kept) = (take 1024 (c ∷ kept), c ∷ kept)
plugins_text plugins [] =
    let text = join_with (codes "##") (plugin_texts plugins 5 0) in (take 1024 text, text)

-- A plugin with the type and the suffixes of each of its items.
pub record PluginTypes : Type 0 where
  pub filename : Text
  pub items : List (Option (Text × Text))

-- What is collected, and whether the loop goes on.
abbrev pub Collected : Type 0
Collected = List Text × Bool

unfoldable pub add_items : Text → List (Option (Text × Text)) → Collected
add_items filename [] = ([], true)
add_items filename (none ∷ items) = ([], false)
add_items filename (some (type, suffixes) ∷ items) =
    let (list, complete) = add_items filename items in
    ((filename ++ b'|' ∷ type ++ b'|' ∷ suffixes) ∷ list, complete)

-- `_0x30412e`: the first exception ends the list.
unfoldable pub plugin_list : List PluginTypes → List Text
unfolding add_items
plugin_list [] = []
plugin_list (p ∷ plugins) =
    let later = plugin_list plugins in
    let (list, complete) = add_items p.filename p.items in list ++ (if complete then later else [])

-- At most 1024 code units are given, and a later call gives them again, whatever the plugins are
-- then, if what is kept is not empty.
pub plugins_text-plugins_text :
    (plugins later : ℕ → Option Plugin) (kept : Text)
    → (plugins_text plugins kept).1 ≢ []
    → (length (plugins_text plugins kept).0 ≤ 1024)
      × (plugins_text later (plugins_text plugins kept).1 ≡ plugins_text plugins kept)
unfolding plugins_text
plugins_text-plugins_text plugins later (c ∷ kept) h =
    (omega (arith, length-take 1024 (c ∷ kept)), refl)
plugins_text-plugins_text plugins later [] h =
    let text : Text = join_with (codes "##") (plugin_texts plugins 5 0) in
    let cases : (text ≡ []) ⊎ ((c : ℕ) × (rest : Text) × (text ≡ c ∷ rest)) = List-cases text in
    elim cases [
      | inl e ↦ absurd (h e)
      | inr (c, rest, e) ↦ (omega (arith, length-take 1024 text), rw e refl)
    ]
