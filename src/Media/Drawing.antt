-- ===== src/Media/Drawing.antt =====
-- `svg_png`: the test of a drawing's elements before it is drawn.
use lean_fm.Common.{
  String, Bool, true, not, ◌&&◌, ◌||◌, List, [], ◌∷◌, ◌==◌, any, get_or, get_last?, starts_with,
  split,
}
use lean_fm.Common.Table.{Table}

-- An element of the parsed document.
pub record Element : Type 0 where
  pub tag : String
  pub attributes : Table String

-- `re.fullmatch`, and `re.search` and `re.findall` without regard to case, by the pattern; `lower`.
pub record Patterns : Type 0 where
  pub fullmatch : (pattern text : String) → Bool
  pub search : (pattern text : String) → Bool
  pub findall : (pattern text : String) → List String
  pub lower : String → String

abbrev pub tags : List String
tags =
    "svg" ∷ "g" ∷ "path" ∷ "rect" ∷ "circle" ∷ "ellipse" ∷ "line" ∷ "polyline" ∷ "polygon" ∷ "text"
    ∷ "tspan" ∷ "defs" ∷ "clipPath" ∷ "linearGradient" ∷ "radialGradient" ∷ "stop" ∷ "mask"
    ∷ "pattern" ∷ "symbol" ∷ "use" ∷ "title" ∷ "desc" ∷ []

-- `name.split("}")[-1]`
unfoldable pub local_name : String → String
unfolding split
local_name name = get_or (get_last? (split b'}' name)) ""

abbrev pub is_tag : String → Bool
is_tag tag = any (λ t. tag == t) tags

unfoldable pub is_foreign_reference : Patterns → String → Bool
is_foreign_reference re reference = not (re.fullmatch "\\s*#[A-Za-z0-9_.:-]+\\s*" reference)

-- Whether an attribute may run code or reach out of the document.
unfoldable pub is_forbidden : Patterns → (name value : String) → Bool
unfolding is_foreign_reference
is_forbidden re name value =
    starts_with name "on"
    || name == "src"
    || name == "base"
    || name == "href" && not (re.fullmatch "#[A-Za-z0-9_.:-]+" value)
    || re.search "@|expression\\s*\\(|https?:|file:|data:" value
    || any (is_foreign_reference re) (re.findall "url\\s*\\((.*?)\\)" value)

unfoldable pub has_static_attributes : Patterns → Table String → Bool
unfolding local_name is_forbidden
has_static_attributes re [] = true
has_static_attributes re ((key, value) ∷ rest) =
    not (is_forbidden re (re.lower (local_name key)) value) && has_static_attributes re rest

unfoldable pub has_static_elements : Patterns → List Element → Bool
unfolding local_name has_static_attributes
has_static_elements re [] = true
has_static_elements re (e ∷ rest) =
    is_tag (local_name e.tag)
    && has_static_attributes re e.attributes
    && has_static_elements re rest

-- Of a document by its root and all its elements, that it is drawn.
unfoldable pub is_static : Patterns → Element → List Element → Bool
unfolding has_static_elements
is_static re document elements =
    document.tag == "{http://www.w3.org/2000/svg}svg" && has_static_elements re elements
