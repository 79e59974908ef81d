-- ===== src/Sdk/Browser/Graphics.antt =====
-- jsScript/webmssdk.js, lines 4910 to 4924, 5301 to 5355 and 6146 to 6188: the report on the
-- graphics of the browser (WebGL). The contexts and what they answer are parameters; `none` stands
-- for an exception.
mod Kept
use douyin_live.Prelude.{
  ℕ, Bool, true, false, ◌||◌, List, [], ◌∷◌, ◌++◌, Option, none, some, if◌then◌else◌,
}
use douyin_live.Sdk.Text.{Text, codes}
use douyin_live.Sdk.Browser.Report.{Report, assign_all}

pub record Graphics (C V : Type 0) : Type 0 where
  -- `getContext` of a new canvas, which may be null.
  pub get_context : Text → Option (Option C)
  -- Whether there is an extension of that name.
  pub has_extension : C → Text → Bool
  pub parameter : C → Text → Option V
  pub antialias : C → Option Bool
  -- `getSupportedExtensions()`, which may be null.
  pub extensions : C → Option (Option V)
  pub empty_array : V
  pub null_value : V
  pub boolean : Bool → V
  pub number : ℕ → V
  -- `0 === v`
  pub is_zero : V → Bool
  -- `v + ''`
  pub text_of : V → Text

infixl 5 ◌>>=◌
abbrev ◌>>=◌ : {A B : Type 0} → Option A → (A → Option B) → Option B
none >>= f = none
some a >>= f = f a

abbrev bit_parameters : List (Text × Text)
bit_parameters =
    (codes "blueBits", codes "BLUE_BITS")
    ∷ (codes "depthBits", codes "DEPTH_BITS")
    ∷ (codes "greenBits", codes "GREEN_BITS")
    ∷ []

abbrev limit_parameters : List (Text × Text)
limit_parameters =
    (codes "maxCombinedTextureImageUnits", codes "MAX_COMBINED_TEXTURE_IMAGE_UNITS")
    ∷ (codes "maxCubeMapTextureSize", codes "MAX_CUBE_MAP_TEXTURE_SIZE")
    ∷ (codes "maxFragmentUniformVectors", codes "MAX_FRAGMENT_UNIFORM_VECTORS")
    ∷ (codes "maxRenderbufferSize", codes "MAX_RENDERBUFFER_SIZE")
    ∷ (codes "maxTextureImageUnits", codes "MAX_TEXTURE_IMAGE_UNITS")
    ∷ (codes "maxTextureSize", codes "MAX_TEXTURE_SIZE")
    ∷ (codes "maxVaryingVectors", codes "MAX_VARYING_VECTORS")
    ∷ (codes "maxVertexAttribs", codes "MAX_VERTEX_ATTRIBS")
    ∷ (codes "maxVertexTextureImageUnits", codes "MAX_VERTEX_TEXTURE_IMAGE_UNITS")
    ∷ (codes "maxVertexUniformVectors", codes "MAX_VERTEX_UNIFORM_VECTORS")
    ∷ (codes "shadingLanguageVersion", codes "SHADING_LANGUAGE_VERSION")
    ∷ (codes "stencilBits", codes "STENCIL_BITS")
    ∷ (codes "version", codes "VERSION")
    ∷ []

module _ {C V : Type 0} (page : Graphics C V) where
  -- `_0x11a1d6`: an exception counts as no context.
  unfoldable pub find_context : Option C
  find_context = elim (page.get_context (codes "webgl")) [
    | none ↦ none
    | some (some c) ↦ some c
    | some none ↦ elim (page.get_context (codes "experimental-webgl")) [
      | none ↦ none
      | some found ↦ found
    ]
  ]

  -- `_0x39c3d8`
  unfoldable pub max_anisotropy : C → Option V
  max_anisotropy c =
      if page.has_extension c (codes "EXT_texture_filter_anisotropic")
        || page.has_extension c (codes "WEBKIT_EXT_texture_filter_anisotropic")
        || page.has_extension c (codes "MOZ_EXT_texture_filter_anisotropic")
      then (page.parameter c (codes "MAX_TEXTURE_MAX_ANISOTROPY_EXT") >>= λ v.
          some (if page.is_zero v then page.number 2 else v))
      else some page.null_value

  unfoldable pub read_parameters : C → List (Text × Text) → Option (Report V)
  read_parameters c [] = some []
  read_parameters c ((field, constant) ∷ names) = page.parameter c constant >>= λ v.
      read_parameters c names >>= λ rest. some ((field, v) ∷ rest)

  -- The fields that both reports have.
  unfoldable pub limits : C → Option (Report V)
  unfolding max_anisotropy read_parameters
  limits c = do
    bits ← read_parameters c bit_parameters
    anisotropy ← max_anisotropy c
    others ← read_parameters c limit_parameters
    some (bits ++ (codes "maxAnisotropy", anisotropy) ∷ others)

  -- `_0x425568`, with the report that was kept before and the one that is kept after it.
  unfoldable pub webgl_info : Option (Report V) → Option (Report V × Option (Report V))
  unfolding find_context limits
  webgl_info (some kept) = some (kept, some kept)
  webgl_info none = elim find_context [
    | none ↦ some ([], none)
    | some c ↦ do
      supported ← page.extensions c
      smooth ← page.antialias c
      others ← limits c
      let report =
          (
            codes "supportedExtensions",
            elim supported [ none ↦ page.empty_array | some list ↦ list ],
          )
          ∷ (codes "antialias", page.boolean smooth)
          ∷ others
      some (report, some report)
  ]

  -- The names of the graphics card, with `none` for every exception on the way.
  unfoldable pub card_names : Option (V × V)
  card_names = elim (page.get_context (codes "webgl")) [
    | none ↦ none
    | some none ↦ none
    | some (some c) ↦
        if page.has_extension c (codes "WEBGL_debug_renderer_info")
        then (page.parameter c (codes "UNMASKED_VENDOR_WEBGL") >>= λ vendor.
            page.parameter c (codes "UNMASKED_RENDERER_WEBGL") >>= λ renderer.
            some (vendor, renderer))
        else none
  ]

  -- `_0x487576`, with the text that was kept before (empty for none) and after it.
  unfoldable pub card_text : Text → Text × Text
  unfolding card_names
  card_text (c ∷ kept) = (c ∷ kept, c ∷ kept)
  card_text [] = elim card_names [
    | none ↦ ([], [])
    | some (vendor, renderer) ↦
        let text = page.text_of vendor ++ b'/' ∷ page.text_of renderer in (text, text)
  ]

  -- `_0x47f354`
  unfoldable pub card_report : Report V
  unfolding card_names
  card_report = elim card_names [
    | none ↦ []
    | some (vendor, renderer) ↦ (codes "vendor", vendor) ∷ (codes "renderer", renderer) ∷ []
  ]

  -- `_0x58bcf8` on the object that the report is collected in.
  unfoldable pub collect_webgl : Report V → Option (Report V)
  unfolding find_context limits card_report
  collect_webgl report = elim find_context [
    | none ↦ some (assign_all report card_report)
    | some c ↦ do
      smooth ← page.antialias c
      others ← limits c
      some (
          assign_all
            (assign_all report
              ((codes "antialias", page.number (if smooth then 1 else 2)) ∷ others))
            card_report)
  ]
