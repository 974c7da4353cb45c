-- ===== src/Paths/Patch.antt =====
-- `main` of the patch tool: the targets are authorized before git applies anything.
use lean_fm.Common.{
  ℕ, Bool, true, false, not, ◌&&◌, Option, none, some, List, [], ◌∷◌, ltb, eqb, if◌then◌else◌,
  is_some,
}
use lean_fm.Paths.Confined.{Parts, authorize_path}

-- An item of `git apply --numstat -z` between its zero bytes: nothing, a line with a path, a line
-- whose path is empty, as the two names follow, or such a name by itself. An item's whole text comes
-- as the parts that it has as a path.
pub data Item : Type 0 where
  nothing : Item
  counts : (text path : Parts) → Item
  renames : (text : Parts) → Item
  name : Parts → Item

-- The parts of an item's text where a name is expected.
abbrev pub target_of : Item → Parts
target_of nothing = []
target_of (counts text path) = text
target_of (renames text) = text
target_of (name path) = path

abbrev pub is_allowed : (Parts → Bool) → Parts → Bool
is_allowed is_link path = is_some (authorize_path is_link path)

-- The loop over the items: whether every target is authorized. A missing name ends it.
unfoldable pub check_items : (Parts → Bool) → List Item → Bool
check_items is_link [] = true
check_items is_link (nothing ∷ rest) = check_items is_link rest
check_items is_link (counts text path ∷ rest) = is_allowed is_link path && check_items is_link rest
check_items is_link (name path ∷ rest) = is_allowed is_link path && check_items is_link rest
check_items is_link (renames text ∷ []) = false
check_items is_link (renames text ∷ old ∷ []) = false
check_items is_link (renames text ∷ old ∷ new ∷ rest) =
    is_allowed is_link (target_of old)
    && is_allowed is_link (target_of new)
    && check_items is_link rest

-- The size of the patch, the items where numstat succeeds, and git's exit codes, with whether it
-- skipped a file, of the run that checks and of the run that applies.
pub record Git : Type 0 where
  pub patch_size : ℕ
  pub items : Option (List Item)
  pub check_code : ℕ
  pub check_skips : Bool
  pub apply_code : ℕ
  pub apply_skips : Bool

pub data Command : Type 0 where
  git_apply git_apply_check : Command

-- The exit code, and whether git was called to apply the patch.
abbrev pub exit_code : ℕ → Bool → ℕ
exit_code code skips = if skips then 1 else code

abbrev pub targets_allowed : (Parts → Bool) → Option (List Item) → Bool
targets_allowed is_link none = true
targets_allowed is_link (some items) = check_items is_link items

abbrev pub after_check : Git → Command → ℕ → ℕ × Bool
after_check g git_apply_check code = (code, false)
after_check g git_apply code =
    if eqb code 0 then (exit_code g.apply_code g.apply_skips, true) else (code, false)

unfoldable pub patch : (Parts → Bool) → Git → Command → ℕ × Bool
unfolding check_items
patch is_link g c =
    if ltb 2_000_000 g.patch_size
    then (1, false)
    else if not (targets_allowed is_link g.items)
    then (1, false)
    else after_check g c (exit_code g.check_code g.check_skips)
