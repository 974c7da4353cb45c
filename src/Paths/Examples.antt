-- ===== src/Paths/Examples.antt =====
-- A patch of two files, one of them renamed.
use lean_fm.Common.{◌≤◌, ◌≡◌, refl, Bool, false, some, List, [], ◌∷◌}
use lean_fm.Paths.Confined.{Parts, authorize_path, confined, is_reserved, join}
use lean_fm.Paths.Patch.{Item, nothing, counts, renames, name, Git, git_apply, exit_code, patch}
use lean_fm.Paths.Protected.{IsPlain, authorize_lem, ListedAllowed, patch_requires}

abbrev no_link : Parts → Bool
no_link path = false

abbrev main_file : Parts
main_file = "source" ∷ "main.go" ∷ []

authorize_lem_example :
    (main_file ≡ main_file) × IsPlain no_link [] main_file × (is_reserved (join main_file) ≡ false)
unfolding authorize_path confined is_reserved join
authorize_lem_example = authorize_lem no_link main_file main_file refl

abbrev items : List Item
items =
    counts ("1\t0\tsource" ∷ "main.go" ∷ []) main_file
    ∷ renames ("0\t0\t" ∷ [])
    ∷ name ("book" ∷ "a.tex" ∷ [])
    ∷ name ("book" ∷ "b.tex" ∷ [])
    ∷ nothing
    ∷ []

abbrev git : Git
git = record {
  patch_size = 900;
  items = some items;
  check_code = 0;
  check_skips = false;
  apply_code = 0;
  apply_skips = false;
}

patch_requires_example :
    (git_apply ≡ git_apply)
    × (git.patch_size ≤ 2_000_000)
    × ListedAllowed no_link git.items
    × (exit_code git.check_code git.check_skips ≡ 0)
unfolding patch authorize_path confined is_reserved join
patch_requires_example = patch_requires no_link git git_apply refl
