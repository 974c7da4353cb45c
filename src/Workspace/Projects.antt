-- ===== src/Workspace/Projects.antt =====
-- `project_base`, `read_project`, `discover`, `project` and the listing of `main`.
use lean_fm.Common.{
  ℕ, ◌+◌, String, Bool, true, false, not, ◌&&◌, ◌||◌, Option, none, some, List, [], ◌∷◌, eqb,
  if◌then◌else◌, ◌==◌, get_or, all, filter,
}
use lean_fm.Common.Table.{Table, lookup, insert}
use lean_fm.Workspace.Names.{valid_identity}

-- An entry of a manifest: a text, or JSON of another kind.
pub data Json : Type 0 where
  text : String → Json
  other_json : Json

-- One of the twelve entries that name a path: absolute, with a part "..", and resolved inside the
-- project. An entry that is no text is refused.
pub record ManifestPath : Type 0 where
  pub is_text : Bool
  pub is_absolute : Bool
  pub has_parent : Bool
  pub is_inside : Bool

pub record Info : Type 0 where
  pub project_id : Option Json
  pub id : Option Json
  pub root : Option Json
  pub paths : List ManifestPath

-- A manifest file. What it holds is `none` if it is no JSON object.
pub data Manifest : Type 0 where
  absent linked : Manifest
  holds : Option Info → Manifest

pub record Child : Type 0 where
  pub name : String
  pub is_linked : Bool
  pub is_dir : Bool
  pub is_inside : Bool
  pub manifest : Manifest
  pub old_manifest : Manifest

-- projects/, with the children in the order of their names
pub record Base : Type 0 where
  pub is_linked : Bool
  pub is_inside : Bool
  pub children : List Child

-- `project_base`
abbrev pub is_base : Base → Bool
is_base b = not b.is_linked && b.is_inside

-- `identity_of`
abbrev pub identity_json : Info → Option Json
identity_json info = elim info.project_id [ none ↦ info.id | some j ↦ some j ]

abbrev pub json_text : Option Json → String
json_text (some (text s)) = s
json_text _ = ""

abbrev pub identity_of : Info → String
identity_of info = json_text (identity_json info)

abbrev pub is_own_root : Option Json → Bool
is_own_root none = true
is_own_root (some (text s)) = s == "."
is_own_root (some other_json) = false

abbrev pub is_confined : ManifestPath → Bool
is_confined p = p.is_text && not p.is_absolute && not p.has_parent && p.is_inside

-- `valid_identity` of a text that is none is that of the empty text: refused.
unfoldable pub accept : (ℕ → Bool) → Info → Bool
unfolding valid_identity
accept is_alnum info =
    valid_identity is_alnum (identity_of info)
    && is_own_root info.root
    && all is_confined info.paths

-- project.json serves where there is no manifest.json.
abbrev pub manifest_of : Manifest → Manifest → Option Info
manifest_of linked old = none
manifest_of (holds info) old = info
manifest_of absent (holds info) = info
manifest_of absent _ = none

abbrev pub checked : (ℕ → Bool) → Option Info → Option Info
checked is_alnum none = none
checked is_alnum (some info) = if accept is_alnum info then some info else none

unfoldable pub read_project : (ℕ → Bool) → Child → Option Info
unfolding accept
read_project is_alnum c =
    if c.is_linked || not c.is_dir || not c.is_inside
    then none
    else checked is_alnum (manifest_of c.manifest c.old_manifest)

-- `found`: the children that can be read
abbrev pub add_found : Child → Option Info → List (Child × Info) → List (Child × Info)
add_found c none found = found
add_found c (some info) found = (c, info) ∷ found

unfoldable pub discover : (ℕ → Bool) → List Child → List (Child × Info)
unfolding read_project
discover is_alnum [] = []
discover is_alnum (c ∷ rest) = add_found c (read_project is_alnum c) (discover is_alnum rest)

abbrev pub has_identity : String → Child × Info → Bool
has_identity identity (c, info) = identity_of info == identity

-- One match, or an error.
abbrev pub only : List (Child × Info) → Option (Child × Info)
only (m ∷ []) = some m
only _ = none

unfoldable pub project : (ℕ → Bool) → Base → String → Option (Child × Info)
unfolding valid_identity discover
project is_alnum b identity =
    if valid_identity is_alnum identity && is_base b
    then only (filter (has_identity identity) (discover is_alnum b.children))
    else none

-- `counts[key] = counts.get(key, 0) + 1`
unfoldable pub count_identities : List (Child × Info) → Table ℕ → Table ℕ
count_identities [] counts = counts
count_identities ((c, info) ∷ rest) counts =
    let key = identity_of info in
    count_identities rest (insert key (get_or (lookup key counts) 0 + 1) counts)

-- The rows of the operation `list`, by their identities.
unfoldable pub list_projects : (ℕ → Bool) → Base → Option (List (Child × Info))
unfolding discover count_identities
list_projects is_alnum b =
    let found = discover is_alnum b.children in
    let counts = count_identities found [] in
    if is_base b
    then some (filter (λ (c, info). eqb (get_or (lookup (identity_of info) counts) 0) 1) found)
    else none
