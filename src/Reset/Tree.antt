-- ===== src/Reset/Tree.antt =====
-- A directory tree, and `inventory`.
use lean_fm.Common.{
  ℕ, suc, String, Bool, true, false, ◌&&◌, Option, none, some, List, [], ◌∷◌, ◌++◌, if◌then◌else◌,
  ◌==◌, ◌+s◌, is_empty, eqb,
}
use lean_fm.Common.Table.{Table, lookup}

-- The digest of a file and its permissions
abbrev pub Content : Type 0
Content = String × ℕ

mutual
  pub data Node : Type 0 where
    link : (leads_to_file : Bool) → Node
    file : Content → Node
    directory : Nodes → Node

  -- The entries of a directory, sorted by name.
  pub data Nodes : Type 0 where
    no_more : Nodes
    entry : String → Node → Nodes → Nodes

abbrev pub child_path : String → String → String
child_path path name = if is_empty path then name else path +s "/" +s name

abbrev pub both : Option (Table Content) → Option (Table Content) → Option (Table Content)
both none later = none
both (some xs) none = none
both (some xs) (some ys) = some (xs ++ ys)

unfoldable mutual
  -- The files of an entry by their paths, or none where the entry is or holds a link.
  pub files_of : String → Node → Option (Table Content)
  files_of path (link b) = none
  files_of path (file c) = some ((path, c) ∷ [])
  files_of path (directory entries) = files_below path entries

  pub files_below : String → Nodes → Option (Table Content)
  files_below path no_more = some []
  files_below path (entry name node entries) =
      both (files_of (child_path path name) node) (files_below path entries)

unfoldable pub inventory : Node → Option (Table Content)
unfolding files_below
inventory (link b) = none
inventory (file c) = some []
inventory (directory entries) = files_below "" entries

unfoldable mutual
  -- Whether there are only directories below, and their paths with their depth.
  pub folders_of : ℕ → String → Node → Option (List (ℕ × String))
  folders_of depth path (link b) = none
  folders_of depth path (file c) = none
  folders_of depth path (directory entries) = elim (folders_below (suc depth) path entries) [
    | none ↦ none
    | some paths ↦ some ((depth, path) ∷ paths)
  ]

  pub folders_below : ℕ → String → Nodes → Option (List (ℕ × String))
  folders_below depth path no_more = some []
  folders_below depth path (entry name node entries) =
      let later = folders_below depth path entries in
      elim (folders_of depth (path +s "/" +s name) node) [
        | none ↦ none
        | some paths ↦ elim later [ none ↦ none | some more ↦ some (paths ++ more) ]
      ]

-- `(directory / name).is_file()`, which follows a link
unfoldable pub has_file : String → Nodes → Bool
has_file name no_more = false
has_file name (entry other node entries) =
    let later = has_file name entries in
    if other == name
    then elim node [ link b ↦ b | file c ↦ true | directory inner ↦ false ]
    else later

unfoldable pub find : String → Nodes → Option Node
find name no_more = none
find name (entry other node entries) =
    let later = find name entries in if other == name then some node else later

abbrev pub same_content : Content → Content → Bool
same_content (d, m) (e, n) = d == e && eqb m n

-- Whether a dictionary has the entries of another.
unfoldable pub holds : Table Content → Table Content → Bool
unfolding lookup
holds table [] = true
holds table ((path, c) ∷ rest) =
    let later = holds table rest in
    elim (lookup path table) [ none ↦ false | some d ↦ same_content d c && later ]

-- The equality of two dictionaries
unfoldable pub same_files : Table Content → Table Content → Bool
unfolding holds
same_files a b = holds a b && holds b a
