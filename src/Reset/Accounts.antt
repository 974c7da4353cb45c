-- ===== src/Reset/Accounts.antt =====
-- What leaves the accounts of a plan as they are.
use lean_fm.Common.{
  ℕ, String, Bool, true, false, Option, none, some, List, [], ◌∷◌, ◌++◌, ◌≡◌, refl, sym, ap, ◌∙◌,
  if◌then◌else◌, some-injective, ◌+s◌,
}
use lean_fm.Reset.Tree.{Node, Nodes, link, file, directory, no_more, entry, has_file, folders_below}
use lean_fm.Reset.Plan.{Plan, add_project, add_projects, add_owned, is_project, add_ordinary}

-- Two plans with the same accounts.
abbrev pub SameAccounts : Plan → Plan → Type 0
SameAccounts p q = (q.accounts ≡ p.accounts) × (q.empty_accounts ≡ p.empty_accounts)

pub project-SameAccounts :
    (path : String) (node : Node) (p q : Plan) → add_project path node p ≡ some q → SameAccounts p q
unfolding add_project
project-SameAccounts path (link b) p q h = absurd cc
project-SameAccounts path (file c) p q h = absurd cc
project-SameAccounts path (directory entries) p q h =
    go (has_file "manifest.json" entries) (folders_below 5 path entries) h
  where
    go :
        (b : Bool) (o : Option (List (ℕ × String)))
        → (if b then some (record p { projects = p.projects ++ path ∷ [] }) else elim o [
          | none ↦ none
          | some folders ↦ some (record p { scaffolds = p.scaffolds ++ folders ++ (4, path) ∷ [] })
        ])
          ≡ some q
        → SameAccounts p q
    go true o h =
        let same = some-injective h in
        (sym (ap Plan.accounts same), sym (ap Plan.empty_accounts same))
    go false none h = absurd cc
    go false (some folders) h =
        let same = some-injective h in
        (sym (ap Plan.accounts same), sym (ap Plan.empty_accounts same))

pub SameAccounts-trans : (p q r : Plan) → SameAccounts p q → SameAccounts q r → SameAccounts p r
SameAccounts-trans p q r a b = (b.0 ∙ a.0, b.1 ∙ a.1)

pub projects-SameAccounts :
    (path : String) (entries : Nodes) (p q : Plan)
    → add_projects path entries p ≡ some q
    → SameAccounts p q
unfolding add_projects
projects-SameAccounts path no_more p q h =
    let same = some-injective h in (sym (ap Plan.accounts same), sym (ap Plan.empty_accounts same))
projects-SameAccounts path (entry name node entries) p q h =
    go (add_project (path +s "/" +s name) node p) refl (λ n. projects-SameAccounts path entries n q)
      h
  where
    go :
        (o : Option Plan)
        → add_project (path +s "/" +s name) node p ≡ o
        → ((n : Plan) → add_projects path entries n ≡ some q → SameAccounts n q)
        → elim o [ none ↦ none | some n ↦ add_projects path entries n ] ≡ some q
        → SameAccounts p q
    go none e later h = absurd cc
    go (some n) e later h =
        SameAccounts-trans p n q (project-SameAccounts (path +s "/" +s name) node p n e) (later n h)

pub owned-SameAccounts :
    (path : String) (o : Option Node) (p q : Plan) → add_owned path o p ≡ some q → SameAccounts p q
unfolding add_owned
owned-SameAccounts path none p q h =
    let same = some-injective h in (sym (ap Plan.accounts same), sym (ap Plan.empty_accounts same))
owned-SameAccounts path (some (link b)) p q h = absurd cc
owned-SameAccounts path (some (file c)) p q h = absurd cc
owned-SameAccounts path (some (directory entries)) p q h = projects-SameAccounts path entries p q h

pub ordinary-SameAccounts :
    (entries : Nodes) (p q : Plan) → add_ordinary entries p ≡ some q → SameAccounts p q
unfolding add_ordinary
ordinary-SameAccounts no_more p q h =
    let same = some-injective h in (sym (ap Plan.accounts same), sym (ap Plan.empty_accounts same))
ordinary-SameAccounts (entry name node entries) p q h =
    go (is_project node) (ordinary-SameAccounts entries _ q) h
  where
    next : Plan
    next = record p { projects = p.projects ++ ("projects/" +s name) ∷ [] }

    go :
        (b : Bool)
        → (add_ordinary entries next ≡ some q → SameAccounts next q)
        → (if b then add_ordinary entries next else none) ≡ some q
        → SameAccounts p q
    go true later h = later h
    go false later h = absurd cc
