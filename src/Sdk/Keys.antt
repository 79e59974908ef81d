-- ===== src/Sdk/Keys.antt =====
-- jsScript/webmssdk.js, lines 4750 to 4774: an object with its keys sorted, as an object and as
-- text. An object is the order of its keys and the value of each; `sort` compares code units. `'' +
-- v` and whether `JSON.stringify` keeps a value are parameters. (In an object the keys that are
-- array indexes come first in any case; the order that is modelled is that of the other keys.)
pub mod Order
mod Tests
use douyin_live.Prelude.{
  ℕ, Bool, true, false, ◌&&◌, not, List, [], ◌∷◌, ◌++◌, ◌==◌, ltb, if◌then◌else◌,
}
use douyin_live.Sdk.Text.{Text}

pub record Object (V : Type 0) : Type 0 where
  pub keys : List Text
  pub read : Text → V

unfoldable pub leb_text : Text → Text → Bool
leb_text [] t = true
leb_text (a ∷ s) [] = false
leb_text (a ∷ s) (b ∷ t) = let rest = leb_text s t in if a == b then rest else ltb a b

unfoldable pub insert : Text → List Text → List Text
unfolding leb_text
insert key [] = key ∷ []
insert key (k ∷ keys) =
    let rest = insert key keys in if leb_text key k then key ∷ k ∷ keys else k ∷ rest

-- `Object.keys(object).sort()`
unfoldable pub sort : List Text → List Text
unfolding insert
sort [] = []
sort (key ∷ keys) = insert key (sort keys)

module _ {V : Type 0} (kept : V → Bool) (to_text : V → Text) where
  -- `'{}' === JSON.stringify(object)`
  unfoldable pub is_blank : (Text → V) → List Text → Bool
  is_blank read [] = true
  is_blank read (key ∷ keys) = not (kept (read key)) && is_blank read keys

  abbrev pub pairs_text : (Text → V) → List Text → Text
  pairs_text read [] = []
  pairs_text read (key ∷ keys) = key ++ b'=' ∷ (to_text (read key) ++ b'&' ∷ pairs_text read keys)

  -- `_0x483e03` of an object.
  unfoldable pub sorted_text : Object V → Text
  unfolding is_blank sort
  sorted_text object =
      if is_blank object.read object.keys then [] else pairs_text object.read (sort object.keys)

  abbrev fields_of : (Text → V) → List Text → List (Text × V)
  fields_of read [] = []
  fields_of read (key ∷ keys) = (key, read key) ∷ fields_of read keys

  -- `_0x3a1cf3` of an object: its fields in order. `shown` is the value itself, or its text.
  unfoldable pub sorted_object : (V → V) → Object V → List (Text × V)
  unfolding is_blank sort
  sorted_object shown object =
      if is_blank object.read object.keys
      then []
      else fields_of (λ key. shown (object.read key)) (sort object.keys)

-- A value with the objects and arrays in it.
mutual
  pub data Json (V : Type 0) : Type 0 where
    leaf : V → Json V
    json_items : JsonList V → Json V
    json_object : JsonFields V → Json V

  pub data JsonList (V : Type 0) : Type 0 where
    no_item : JsonList V
    item : Json V → JsonList V → JsonList V

  pub data JsonFields (V : Type 0) : Type 0 where
    no_field : JsonFields V
    field : Text → Json V → JsonFields V → JsonFields V

module _ {V : Type 0} where
  unfoldable pub insert_field : Text → Json V → JsonFields V → JsonFields V
  unfolding leb_text
  insert_field key value no_field = field key value no_field
  insert_field key value (field k v fields) =
      let rest = insert_field key value fields in
      if leb_text key k then field key value (field k v fields) else field k v rest

  -- `_0x20b77a`: the fields of an object are set in the order of their keys.
  unfoldable mutual
    unfolding insert_field

    pub sort_deep : Json V → Json V
    sort_deep (leaf v) = leaf v
    sort_deep (json_items list) = json_items (sort_items list)
    sort_deep (json_object fields) = json_object (sort_fields fields)

    pub sort_items : JsonList V → JsonList V
    sort_items no_item = no_item
    sort_items (item value list) = item (sort_deep value) (sort_items list)

    pub sort_fields : JsonFields V → JsonFields V
    sort_fields no_field = no_field
    sort_fields (field key value fields) = insert_field key (sort_deep value) (sort_fields fields)
