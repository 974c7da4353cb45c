-- ===== src/Reset/Apply.antt =====
-- What `reset` does, and what it leaves when it stops.
use lean_fm.Common.{
  ℕ, String, Bool, true, false, none, some, List, [], ◌∷◌, ◌++◌, if◌then◌else◌, ltb, is_some,
}
use lean_fm.Reset.Tree.{Node}
use lean_fm.Reset.Plan.{Account, Plan, Workspace, plan_of, in_vault, has_records}

-- A change of the workspace.
pub data Action : Type 0 where
  make_vault : Action
  copy_account : String → Action
  remove_project : String → Action
  remove_scaffold : String → Action
  remove_empty : String → Action
  remove_account : String → Action
  remove_legacy : Action
  make_projects : Action
  write_report : Action

pub data Result : Type 0 where
  refused : Result
  planned : Plan → Result
  stopped : Result
  applied : Plan → Result

-- What the copies in the vault are found to be, when they are made and again before an account is
-- removed; whether a project has become a link or left the root, and whether a directory can be
-- removed as empty.
pub record Findings : Type 0 where
  pub copied : String → Node
  pub kept : String → Node
  pub has_moved : String → Bool
  pub is_empty : String → Bool

-- The actions that were done, and whether all were.
abbrev pub Run : Type 0
Run = List Action × Bool

abbrev pub then_do : Action → Run → Run
then_do a (actions, whole) = (a ∷ actions, whole)

abbrev pub halt : Run
halt = ([], false)

abbrev pub done : Run
done = ([], true)

-- One part of the work after another, where the first is whole.
abbrev pub followed_by : Run → Run → Run
followed_by (actions, false) rest = (actions, false)
followed_by (actions, true) (more, whole) = (actions ++ more, whole)

abbrev pub checked : Findings → Account → Run → Run
checked f (name, records) rest = if has_records (f.copied name) records then rest else halt

unfoldable pub copy_accounts : Workspace → Findings → List Account → Run
copy_accounts w f [] = done
copy_accounts w f (account ∷ accounts) =
    let rest = copy_accounts w f accounts in
    if is_some (in_vault w.vault account.0)
    then checked f account rest
    else then_do (copy_account account.0) (checked f account rest)

unfoldable pub remove_projects : Findings → List String → Run
remove_projects f [] = done
remove_projects f (path ∷ paths) =
    let rest = remove_projects f paths in
    if f.has_moved path then halt else then_do (remove_project path) rest

-- The scaffolds, the deepest first.
abbrev pub insert_deep : ℕ × String → List (ℕ × String) → List (ℕ × String)
insert_deep x [] = x ∷ []
insert_deep x (y ∷ ys) = if ltb x.0 y.0 then y ∷ insert_deep x ys else x ∷ y ∷ ys

abbrev pub deepest_first : List (ℕ × String) → List (ℕ × String)
deepest_first [] = []
deepest_first (x ∷ xs) = insert_deep x (deepest_first xs)

unfoldable pub remove_scaffolds : Findings → List (ℕ × String) → Run
remove_scaffolds f [] = done
remove_scaffolds f (s ∷ scaffolds) =
    let rest = remove_scaffolds f scaffolds in
    if f.is_empty s.1 then then_do (remove_scaffold s.1) rest else halt

unfoldable pub remove_empties : Findings → List String → Run
remove_empties f [] = done
remove_empties f (name ∷ names) =
    let rest = remove_empties f names in
    if f.is_empty name then then_do (remove_empty name) rest else halt

unfoldable pub remove_accounts : Findings → List Account → Run
remove_accounts f [] = done
remove_accounts f (account ∷ accounts) =
    let rest = remove_accounts f accounts in
    if has_records (f.kept account.0) account.1
    then then_do (remove_account account.0) rest
    else halt

-- The changes from the first deletion on.
unfoldable pub clear : Workspace → Findings → Plan → Run
unfolding remove_projects remove_scaffolds remove_empties remove_accounts
clear w f p = followed_by (remove_projects f p.projects) (
    followed_by (remove_scaffolds f (deepest_first p.scaffolds)) (
      followed_by (remove_empties f p.empty_accounts) (
        followed_by (remove_accounts f p.accounts) (
          (if is_some w.legacy then remove_legacy ∷ [] else [])
              ++ make_projects ∷ write_report ∷ [],
          true,
        ))))

unfoldable pub apply : Workspace → Findings → Plan → Run
unfolding copy_accounts clear
apply w f p = then_do make_vault (followed_by (copy_accounts w f p.accounts) (clear w f p))

abbrev pub result_of : Plan → Run → Result × List Action
result_of p (actions, true) = (applied p, actions)
result_of p (actions, false) = (stopped, actions)

unfoldable pub reset : Workspace → Findings → (is_applied : Bool) → Result × List Action
unfolding plan_of apply
reset w f is_applied = elim (plan_of w) [
  | none ↦ (refused, [])
  | some p ↦ if is_applied then result_of p (apply w f p) else (planned p, [])
]
