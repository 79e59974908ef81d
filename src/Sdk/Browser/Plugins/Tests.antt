-- ===== src/Sdk/Browser/Plugins/Tests.antt =====
-- Runs of the reports on plugins.
use douyin_live.Prelude.{ℕ, zero, suc, ◌≡◌, refl, ◌≤◌, [], ◌∷◌, Option, none, some, length}
use douyin_live.Sdk.Text.{codes}
use douyin_live.Sdk.Browser.Plugins.{Plugin, plugins_text, plugin_list, plugins_text-plugins_text}

abbrev viewer : Plugin
viewer = record {
  name = codes "Viewer";
  version = [];
  filename = codes "v";
  types = some (codes "pdf") ∷ none ∷ some (codes "x") ∷ [];
}

-- The second place of five has a plugin.
abbrev one_plugin : ℕ → Option Plugin
one_plugin (suc zero) = some viewer
one_plugin _ = none

abbrev no_plugins : ℕ → Option Plugin
no_plugins n = none

one_plugin_run : plugins_text one_plugin [] ≡ (codes "Viewervpdfx", codes "Viewervpdfx")
unfolding plugins_text
one_plugin_run = refl

plugins_text-plugins_text_run :
    (length (plugins_text one_plugin []).0 ≤ 1024)
    × (plugins_text no_plugins (plugins_text one_plugin []).1 ≡ plugins_text one_plugin [])
unfolding plugins_text
plugins_text-plugins_text_run = plugins_text-plugins_text one_plugin no_plugins [] (λ h. cc)

list_run :
    plugin_list (
      record {
        filename = codes "v";
        items = some (codes "pdf", codes "p") ∷ none ∷ some (codes "x", []) ∷ [];
      }
      ∷ [])
    ≡ codes "v|pdf|p" ∷ []
unfolding plugin_list
list_run = refl
