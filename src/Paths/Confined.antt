-- ===== src/Paths/Confined.antt =====
-- `confined` and `authorize_path`.
use lean_fm.Common.{
  String, Bool, ◌||◌, Option, none, some, List, [], ◌∷◌, ◌++◌, if◌then◌else◌, ◌==◌, any,
  starts_with, ◌+s◌,
}

abbrev pub Parts : Type 0
Parts = List String

-- ".." or the root of an absolute path, but not "//", the first part that pathlib gives a path that
-- begins with two slashes
abbrev pub is_escape : String → Bool
is_escape part = part == ".." || part == "/"

-- The loop of `confined`, from the prefix that it has walked. A refusal is `none`.
unfoldable pub walk : (Parts → Bool) → Parts → Parts → Option Parts
walk is_link prefix [] = some prefix
walk is_link prefix (part ∷ rest) =
    let next = prefix ++ part ∷ [] in
    let further = walk is_link next rest in
    if is_escape part then none else if is_link next then none else further

unfoldable pub confined : (Parts → Bool) → Parts → Option Parts
unfolding walk
confined is_link parts = walk is_link [] parts

-- `str` of a relative path
unfoldable pub join : Parts → String
join [] = "."
join (part ∷ []) = part
join (part ∷ next ∷ rest) = part +s "/" +s join (next ∷ rest)

-- RESERVED
abbrev pub reserved : List String
reserved =
    ".leanfm/application" ∷ ".leanfm/acceptance.json" ∷ ".leanfm/accepted" ∷ ".leanfm/work"
    ∷ "reports/specification-check" ∷ "reports/runtime-check" ∷ "manifest.json" ∷ "project.json"
    ∷ []

abbrev pub is_below : String → String → Bool
is_below path name = path == name || starts_with path (name +s "/")

unfoldable pub is_reserved : String → Bool
is_reserved path = any (is_below path) reserved

-- A part that starts with "/", such as "//", begins a joined path anew, outside the project.
abbrev pub is_absolute : String → Bool
is_absolute part = starts_with part "/"

-- `path.relative_to(root)` of the path that `confined` has joined, none where it is not below
abbrev pub relative_to_root : Option Parts → Option Parts
relative_to_root none = none
relative_to_root (some path) = if any is_absolute path then none else some path

abbrev pub unless_reserved : Option Parts → Option Parts
unless_reserved none = none
unless_reserved (some path) = if is_reserved (join path) then none else some path

-- The path that may be written, or none.
unfoldable pub authorize_path : (Parts → Bool) → Parts → Option Parts
unfolding confined
authorize_path is_link parts = unless_reserved (relative_to_root (confined is_link parts))
