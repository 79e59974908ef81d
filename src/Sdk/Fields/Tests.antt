-- ===== src/Sdk/Fields/Tests.antt =====
-- Runs of the codes and masks.
use douyin_live.Prelude.{◌≡◌, refl, true, false, [], ◌∷◌, List, if◌then◌else◌}
use douyin_live.Sdk.Text.{Text, codes, same_text}
use douyin_live.Sdk.Fields.{Property, undefined, plain_object, flags_mask, presence_mask}

flags_of_three : flags_mask (true ∷ false ∷ true ∷ []) ≡ 5
unfolding flags_mask
flags_of_three = refl

abbrev names : List Text
names = codes "a" ∷ codes "b" ∷ codes "c" ∷ []

abbrev without_a : Text → Property
without_a key = if same_text key (codes "a") then undefined else plain_object

abbrev only_c : Text → Property
only_c key = if same_text key (codes "c") then plain_object else undefined

-- The codes 1 and 2 of neighbours overlap: the mask does not tell whether the second property is
-- there.
masks_collide : presence_mask without_a names 0 ≡ presence_mask only_c names 0
unfolding presence_mask same_text
masks_collide = refl
