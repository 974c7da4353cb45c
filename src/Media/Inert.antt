-- ===== src/Media/Inert.antt =====
-- What a drawing that is accepted cannot do.
use lean_fm.Common.{
  String, Bool, true, false, not, ◌&&◌, ◌||◌, ◌≡◌, List, [], ◌∷◌, arith, ◌==◌, any, starts_with,
  All,
}
use lean_fm.Common.Table.{Table}
use lean_fm.Media.Drawing.{
  Element, Patterns, is_tag, local_name, is_foreign_reference, is_forbidden, has_static_attributes,
  has_static_elements,
}

-- An attribute that handles no event, names no source or base, links only within the document,
-- names no scheme, and refers only within the document.
pub record IsInert (re : Patterns) (name value : String) : Type 0 where
  pub no_handler : starts_with name "on" ≡ false
  pub no_source : (name == "src") ≡ false
  pub no_base : (name == "base") ≡ false
  pub local_link : (name == "href" && not (re.fullmatch "#[A-Za-z0-9_.:-]+" value)) ≡ false
  pub no_scheme : re.search "@|expression\\s*\\(|https?:|file:|data:" value ≡ false
  pub local_references :
      All
        (λ r. re.fullmatch "\\s*#[A-Za-z0-9_.:-]+\\s*" r ≡ true)
        (re.findall "url\\s*\\((.*?)\\)" value)

references_lem :
    (re : Patterns) (references : List String)
    → any (is_foreign_reference re) references ≡ false
    → All (λ r. re.fullmatch "\\s*#[A-Za-z0-9_.:-]+\\s*" r ≡ true) references
unfolding is_foreign_reference
references_lem re [] h = tt
references_lem re (r ∷ references) h =
    (ground (arith, h), references_lem re references (ground (arith, h)))

parts_lem :
    (handler source base link scheme foreign : Bool)
    → (handler || source || base || link || scheme || foreign) ≡ false
    → (handler ≡ false)
      × (source ≡ false)
      × (base ≡ false)
      × (link ≡ false)
      × (scheme ≡ false)
      × (foreign ≡ false)
parts_lem handler source base link scheme foreign h = ground arith

allowed-IsInert :
    (re : Patterns) (name value : String)
    → is_forbidden re name value ≡ false
    → IsInert re name value
unfolding is_forbidden
allowed-IsInert re name value h =
    let (handler, source, base, link, scheme, foreign) =
      parts_lem (starts_with name "on") (name == "src") (name == "base")
        (name == "href" && not (re.fullmatch "#[A-Za-z0-9_.:-]+" value))
        (re.search "@|expression\\s*\\(|https?:|file:|data:" value)
        (any (is_foreign_reference re) (re.findall "url\\s*\\((.*?)\\)" value)) h in
    record {
      no_handler = handler;
      no_source = source;
      no_base = base;
      local_link = link;
      no_scheme = scheme;
      local_references = references_lem re _ foreign;
    }

abbrev AllInert : Patterns → Table String → Type 0
AllInert re = All (λ (a : String × String). IsInert re (re.lower (local_name a.0)) a.1)

and_parts : (a b : Bool) → (a && b) ≡ true → (a ≡ true) × (b ≡ true)
and_parts a b h = ground arith

attributes-AllInert :
    (re : Patterns) (attributes : Table String)
    → has_static_attributes re attributes ≡ true
    → AllInert re attributes
unfolding has_static_attributes
attributes-AllInert re [] h = tt
attributes-AllInert re ((key, value) ∷ rest) h =
    let (here, later) =
      and_parts (not (is_forbidden re (re.lower (local_name key)) value))
        (has_static_attributes re rest) h in
    (
      allowed-IsInert re (re.lower (local_name key)) value (ground (arith, here)),
      attributes-AllInert re rest later,
    )

-- A drawing whose elements are accepted has only static elements, and no attribute of any of them
-- can run code or name anything outside the document.
pub elements-AllInert :
    (re : Patterns) (elements : List Element)
    → has_static_elements re elements ≡ true
    → All
        (λ (e : Element).
          (is_tag (local_name e.tag) ≡ true)
          × All (λ (a : String × String). IsInert re (re.lower (local_name a.0)) a.1) e.attributes)
        elements
unfolding has_static_elements
elements-AllInert re [] h = tt
elements-AllInert re (e ∷ rest) h =
    let (now, later) =
      and_parts (is_tag (local_name e.tag) && has_static_attributes re e.attributes)
        (has_static_elements re rest) h in
    let (tag, attributes) =
      and_parts (is_tag (local_name e.tag)) (has_static_attributes re e.attributes) now in
    ((tag, attributes-AllInert re e.attributes attributes), elements-AllInert re rest later)
