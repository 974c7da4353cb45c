-- ===== src/Reset/Plan.antt =====
-- What `reset` decides before it changes anything.
use lean_fm.Common.{
  ℕ, String, Bool, true, false, not, ◌&&◌, ◌||◌, Option, none, some, List, [], ◌∷◌, ◌++◌,
  if◌then◌else◌, ◌==◌, ◌+s◌, any,
}
use lean_fm.Common.Table.{Table}
use lean_fm.Reset.Tree.{
  Content, Node, Nodes, link, file, directory, no_more, entry, both, files_of, inventory,
  folders_below, has_file, find, same_files,
}

-- The workspace: whether its three marks are there, a boundary is a link, and deletion is safe from
-- links; the names in data, the accounts in data/accounts, the projects, and the vault
-- .leanfm/accounts, each none where the directory is not there.
pub record Workspace : Type 0 where
  pub is_workspace : Bool
  pub boundary_is_link : Bool
  pub deletes_safely : Bool
  pub data_names : Option (List String)
  pub legacy : Option Nodes
  pub projects : Option Nodes
  pub vault : Option Nodes

-- An account to keep: its name and its records.
abbrev pub Account : Type 0
Account = String × Table Content

pub record Plan : Type 0 where
  pub accounts : List Account
  pub empty_accounts : List String
  pub projects : List String
  pub scaffolds : List (ℕ × String)

abbrev pub empty_plan : Plan
empty_plan = record { accounts = []; empty_accounts = []; projects = []; scaffolds = [] }

abbrev pub kept_names : List String
kept_names = "projects" ∷ "password.json" ∷ "account.json" ∷ "credentials" ∷ []

unfoldable pub only_kept : Nodes → Bool
only_kept no_more = true
only_kept (entry name node entries) =
    let later = only_kept entries in any (λ k. name == k) kept_names && later

-- A project of an account: listed if it has a manifest, else a tree of directories only.
unfoldable pub add_project : String → Node → Plan → Option Plan
unfolding has_file folders_below
add_project path (link b) plan = none
add_project path (file c) plan = none
add_project path (directory entries) plan =
    if has_file "manifest.json" entries
    then some (record plan { projects = plan.projects ++ path ∷ [] })
    else elim (folders_below 5 path entries) [
      | none ↦ none
      | some folders ↦
          some (record plan { scaffolds = plan.scaffolds ++ folders ++ (4, path) ∷ [] })
    ]

unfoldable pub add_projects : String → Nodes → Plan → Option Plan
unfolding add_project
add_projects path no_more plan = some plan
add_projects path (entry name node entries) plan =
    elim (add_project (path +s "/" +s name) node plan) [
      | none ↦ none
      | some next ↦ add_projects path entries next
    ]

-- The directory `projects` of an account.
unfoldable pub add_owned : String → Option Node → Plan → Option Plan
unfolding add_projects
add_owned path none plan = some plan
add_owned path (some (link b)) plan = none
add_owned path (some (file c)) plan = none
add_owned path (some (directory entries)) plan = add_projects path entries plan

-- `records`: the files of all other entries, none where one is or holds a link.
unfoldable pub records_of : Nodes → Option (Table Content)
unfolding files_of
records_of no_more = some []
records_of (entry name node entries) =
    let later = records_of entries in
    if name == "projects" then later else both (files_of name node) later

-- What the vault has for an account, where it has something.
abbrev pub in_vault : Option Nodes → String → Option Node
in_vault none name = none
in_vault (some vault) name = find name vault

-- Whether a copy in the vault has exactly the records.
abbrev pub has_records : Node → Table Content → Bool
has_records node records = elim (inventory node) [
  | none ↦ false
  | some files ↦ same_files files records
]

abbrev pub differs : Option Node → Table Content → Bool
differs none records = false
differs (some node) records = not (has_records node records)

abbrev pub keep_account : String → Table Content → Plan → Plan
keep_account name [] plan = record plan { empty_accounts = plan.empty_accounts ++ name ∷ [] }
keep_account name (r ∷ records) plan = record plan {
  accounts = plan.accounts ++ (name, r ∷ records) ∷ [];
}

abbrev pub keep_records : Option Nodes → String → Option (Table Content) → Plan → Option Plan
keep_records vault name none plan = none
keep_records vault name (some records) plan =
    if differs (in_vault vault name) records then none else some (keep_account name records plan)

-- The body of the loop over the accounts.
unfoldable pub add_account : Option Nodes → String → Node → Plan → Option Plan
unfolding only_kept add_owned records_of find inventory same_files
add_account vault name (link b) plan = none
add_account vault name (file c) plan = none
add_account vault name (directory entries) plan =
    let path = "data/accounts/" +s name +s "/projects" in
    if not (only_kept entries) then none else elim (add_owned path (find "projects" entries) plan) [
      | none ↦ none
      | some next ↦ keep_records vault name (records_of entries) next
    ]

unfoldable pub add_accounts : Option Nodes → Nodes → Plan → Option Plan
unfolding add_account
add_accounts vault no_more plan = some plan
add_accounts vault (entry name node entries) plan = elim (add_account vault name node plan) [
  | none ↦ none
  | some next ↦ add_accounts vault entries next
]

-- An ordinary project has a manifest of its own.
abbrev pub is_project : Node → Bool
is_project (link b) = false
is_project (file c) = false
is_project (directory entries) = has_file "manifest.json" entries || has_file "project.json" entries

unfoldable pub add_ordinary : Nodes → Plan → Option Plan
unfolding has_file
add_ordinary no_more plan = some plan
add_ordinary (entry name node entries) plan =
    let path = "projects/" +s name in
    let later = add_ordinary entries (record plan { projects = plan.projects ++ path ∷ [] }) in
    if is_project node then later else none

abbrev pub only_accounts : Option (List String) → Bool
only_accounts none = true
only_accounts (some names) =
    any (λ n. n == "accounts") names && not (any (λ n. not (n == "accounts")) names)

abbrev pub accounts_of : Option Nodes → Option Nodes → Plan → Option Plan
accounts_of vault none plan = some plan
accounts_of vault (some accounts) plan = add_accounts vault accounts plan

abbrev pub ordinary_of : Option Nodes → Option Plan → Option Plan
ordinary_of projects none = none
ordinary_of none (some plan) = some plan
ordinary_of (some projects) (some plan) = add_ordinary projects plan

-- The checks of `reset`, with what it will do, or none where it refuses.
unfoldable pub plan_of : Workspace → Option Plan
unfolding add_accounts add_ordinary
plan_of w =
    if not w.is_workspace
    then none
    else if w.boundary_is_link
    then none
    else if not w.deletes_safely
    then none
    else if not (only_accounts w.data_names)
    then none
    else ordinary_of w.projects (accounts_of w.vault w.legacy empty_plan)
