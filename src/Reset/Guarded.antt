-- ===== src/Reset/Guarded.antt =====
-- When an action of a reset may be done.
use lean_fm.Common.{
  ℕ, String, Bool, true, false, List, [], ◌∷◌, ◌++◌, ◌≡◌, refl, if◌then◌else◌, All, is_some,
}
use mathlib.Core.List.{Memᴰ}
use lean_fm.Reset.Plan.{Account, Plan, Workspace, in_vault, has_records}
use lean_fm.Reset.Apply.{
  Action, make_vault, copy_account, remove_project, remove_scaffold, remove_empty, remove_account,
  remove_legacy, make_projects, write_report, Findings, Run, then_do, halt, followed_by, checked,
  copy_accounts, remove_projects, remove_scaffolds, remove_empties, remove_accounts, deepest_first,
  clear,
}
use lean_fm.Reset.Deepest.{deepest-member}

-- Every account that is to be kept has its records in the vault.
abbrev pub AllCopied : Findings → List Account → Type 0
AllCopied f accounts = All (λ (a : Account). has_records (f.copied a.0) a.1 ≡ true) accounts

-- When an action may be done: nothing is removed before all records are in the vault, a project
-- only if the plan lists it, a directory only if it is empty and the plan lists it as one without a
-- project, an account only if the vault still has its records, and the directory of an account
-- without records only if the plan lists it.
abbrev pub IsGuarded : Findings → Plan → Action → Type 0
IsGuarded f p make_vault = Unit
IsGuarded f p (copy_account name) = Unit
IsGuarded f p (remove_project path) = AllCopied f p.accounts × Memᴰ path p.projects
IsGuarded f p (remove_scaffold path) =
    AllCopied f p.accounts
    × (s : ℕ × String) × Memᴰ s p.scaffolds
    × (s.1 ≡ path)
    × (f.is_empty path ≡ true)
IsGuarded f p (remove_empty name) = AllCopied f p.accounts × Memᴰ name p.empty_accounts
IsGuarded f p (remove_account name) =
    AllCopied f p.accounts
    × (a : Account) × Memᴰ a p.accounts
    × (a.0 ≡ name)
    × (has_records (f.kept name) a.1 ≡ true)
IsGuarded f p remove_legacy = AllCopied f p.accounts
IsGuarded f p make_projects = AllCopied f p.accounts
IsGuarded f p write_report = AllCopied f p.accounts

module _ (f : Findings) (p : Plan) where
  pub Guarded-append :
      (xs ys : List Action)
      → All (IsGuarded f p) xs
      → All (IsGuarded f p) ys
      → All (IsGuarded f p) (xs ++ ys)
  Guarded-append [] ys h k = k
  Guarded-append (x ∷ xs) ys h k = (h.0, Guarded-append xs ys h.1 k)

  -- The second part has to be guarded only if the first is whole.
  pub followed_by-Guarded :
      (first rest : Run)
      → All (IsGuarded f p) first.0
      → (first.1 ≡ true → All (IsGuarded f p) rest.0)
      → All (IsGuarded f p) (followed_by first rest).0
  followed_by-Guarded (actions, false) rest h k = h
  followed_by-Guarded (actions, true) (more, whole) h k = Guarded-append actions more h (k refl)

  pub checked_lem :
      (name : String) (b : Bool) (rest : Run)
      → All (IsGuarded f p) rest.0
      → All (IsGuarded f p) (if b then rest else halt).0
  checked_lem name true rest h = h
  checked_lem name false rest h = tt

  pub copy-Guarded :
      (w : Workspace) (accounts : List Account) → All (IsGuarded f p) (copy_accounts w f accounts).0
  unfolding copy_accounts
  copy-Guarded w [] = tt
  copy-Guarded w (a ∷ accounts) =
      go (is_some (in_vault w.vault a.0))
        (checked_lem a.0 (has_records (f.copied a.0) a.1) _ (copy-Guarded w accounts))
    where
      go :
          (b : Bool)
          → All (IsGuarded f p) (checked f a (copy_accounts w f accounts)).0
          → All
              (IsGuarded f p)
              (if b
                then checked f a (copy_accounts w f accounts)
                else then_do (copy_account a.0) (checked f a (copy_accounts w f accounts))).0
      go true h = h
      go false h = (tt, h)

  -- Copying is whole only with all records in the vault.
  pub copy-AllCopied :
      (w : Workspace) (accounts : List Account)
      → (copy_accounts w f accounts).1 ≡ true
      → AllCopied f accounts
  unfolding copy_accounts
  copy-AllCopied w [] h = tt
  copy-AllCopied w (a ∷ accounts) h =
      go (is_some (in_vault w.vault a.0)) (has_records (f.copied a.0) a.1) refl
        (copy-AllCopied w accounts) h
    where
      go :
          (b c : Bool)
          → has_records (f.copied a.0) a.1 ≡ c
          → ((copy_accounts w f accounts).1 ≡ true → AllCopied f accounts)
          → (if b
              then (if c then copy_accounts w f accounts else halt)
              else then_do (copy_account a.0) (if c then copy_accounts w f accounts else halt)).1
            ≡ true
          → AllCopied f (a ∷ accounts)
      go true true e rest h = (e, rest h)
      go true false e rest h = absurd cc
      go false true e rest h = (e, rest h)
      go false false e rest h = absurd cc

  module _ (copied : AllCopied f p.accounts) where
    projects-Guarded :
        (paths : List String)
        → ((x : String) → Memᴰ x paths → Memᴰ x p.projects)
        → All (IsGuarded f p) (remove_projects f paths).0
    unfolding remove_projects
    projects-Guarded [] m = tt
    projects-Guarded (x ∷ paths) m =
        go (f.has_moved x) (projects-Guarded paths (λ y h. m y (Memᴰ.tail h)))
      where
        go :
            (b : Bool)
            → All (IsGuarded f p) (remove_projects f paths).0
            → All
                (IsGuarded f p)
                (if b then halt else then_do (remove_project x) (remove_projects f paths)).0
        go true h = tt
        go false h = ((copied, m x (Memᴰ.head refl)), h)

    scaffolds-Guarded :
        (scaffolds : List (ℕ × String))
        → ((x : ℕ × String) → Memᴰ x scaffolds → Memᴰ x p.scaffolds)
        → All (IsGuarded f p) (remove_scaffolds f scaffolds).0
    unfolding remove_scaffolds
    scaffolds-Guarded [] m = tt
    scaffolds-Guarded (s ∷ scaffolds) m =
        go (f.is_empty s.1) refl (scaffolds-Guarded scaffolds (λ y h. m y (Memᴰ.tail h)))
      where
        go :
            (b : Bool)
            → f.is_empty s.1 ≡ b
            → All (IsGuarded f p) (remove_scaffolds f scaffolds).0
            → All
                (IsGuarded f p)
                (if b then then_do (remove_scaffold s.1) (remove_scaffolds f scaffolds) else halt).0
        go true e h = ((copied, s, m s (Memᴰ.head refl), refl, e), h)
        go false e h = tt

    empties-Guarded :
        (names : List String)
        → ((x : String) → Memᴰ x names → Memᴰ x p.empty_accounts)
        → All (IsGuarded f p) (remove_empties f names).0
    unfolding remove_empties
    empties-Guarded [] m = tt
    empties-Guarded (x ∷ names) m =
        go (f.is_empty x) (empties-Guarded names (λ y h. m y (Memᴰ.tail h)))
      where
        go :
            (b : Bool)
            → All (IsGuarded f p) (remove_empties f names).0
            → All
                (IsGuarded f p)
                (if b then then_do (remove_empty x) (remove_empties f names) else halt).0
        go true h = ((copied, m x (Memᴰ.head refl)), h)
        go false h = tt

    accounts-Guarded :
        (accounts : List Account)
        → ((x : Account) → Memᴰ x accounts → Memᴰ x p.accounts)
        → All (IsGuarded f p) (remove_accounts f accounts).0
    unfolding remove_accounts
    accounts-Guarded [] m = tt
    accounts-Guarded (a ∷ accounts) m =
        go (has_records (f.kept a.0) a.1) refl
          (accounts-Guarded accounts (λ y h. m y (Memᴰ.tail h)))
      where
        go :
            (b : Bool)
            → has_records (f.kept a.0) a.1 ≡ b
            → All (IsGuarded f p) (remove_accounts f accounts).0
            → All
                (IsGuarded f p)
                (if b then then_do (remove_account a.0) (remove_accounts f accounts) else halt).0
        go true e h = ((copied, a, m a (Memᴰ.head refl), refl, e), h)
        go false e h = tt

    last-Guarded :
        (b : Bool)
        → All
            (IsGuarded f p)
            ((if b then remove_legacy ∷ [] else []) ++ make_projects ∷ write_report ∷ [])
    last-Guarded true = (copied, (copied, (copied, tt)))
    last-Guarded false = (copied, (copied, tt))

    pub clear-Guarded : (w : Workspace) → All (IsGuarded f p) (clear w f p).0
    unfolding clear
    clear-Guarded w =
        followed_by-Guarded (remove_projects f p.projects) _
          (projects-Guarded p.projects (λ x m. m))
          (λ e1.
            followed_by-Guarded (remove_scaffolds f (deepest_first p.scaffolds)) _
              (scaffolds-Guarded (deepest_first p.scaffolds) (deepest-member p.scaffolds))
              (λ e2.
                followed_by-Guarded (remove_empties f p.empty_accounts) _
                  (empties-Guarded p.empty_accounts (λ x m. m))
                  (λ e3.
                    followed_by-Guarded (remove_accounts f p.accounts) _
                      (accounts-Guarded p.accounts (λ x m. m))
                      (λ e4. last-Guarded (is_some w.legacy)))))
