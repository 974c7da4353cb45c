-- ===== src/Reset/Recorded.antt =====
-- What the plan of a reset says of the accounts.
use lean_fm.Common.{
  String, Bool, true, false, not, Option, none, some, List, [], ◌∷◌, ◌++◌, ◌≡◌, refl, sym, ap, ◌∙◌,
  subst, if◌then◌else◌, All, arith, some-injective, arith, ◌+s◌,
}
use lean_fm.Common.Table.{Table}
use lean_fm.Reset.Tree.{Content, Node, Nodes, link, file, directory, no_more, entry, find}
use lean_fm.Reset.Plan.{
  Account, Plan, Workspace, empty_plan, add_owned, records_of, in_vault, has_records, differs,
  keep_account, keep_records, only_kept, add_account, add_accounts, only_accounts, accounts_of,
  ordinary_of, plan_of,
}
use mathlib.Core.List.{Memᴰ}
use lean_fm.Reset.Files.{HasRecord}
use lean_fm.Reset.Kept.{HasCopy, records-Listed, records-HasRecord, copy_lem}
use lean_fm.Reset.Accounts.{SameAccounts, owned-SameAccounts, ordinary-SameAccounts}

-- An entry of a directory.
pub data Within (name : String) (node : Node) : Nodes → Type 0 where
  here : (rest : Nodes) → Within name node (entry name node rest)
  there :
      (other : String) (next : Node) (rest : Nodes)
      → Within name node rest
      → Within name node (entry other next rest)

-- The records are the files of an account's directory that are not below its "projects", and what
-- the vault has for the account has the same files and no other.
pub record IsRecorded (legacy : Nodes) (vault : Option Nodes) (name : String)
    (records : Table Content) : Type 0 where
  pub entries : Nodes
  pub listed : Within name (directory entries) legacy
  pub every : (path : String) (c : Content) → HasRecord path c entries → Memᴰ (path, c) records
  pub only : (path : String) (c : Content) → Memᴰ (path, c) records → HasRecord path c entries
  pub agrees :
      (node : Node) (path : String) (c : Content)
      → in_vault vault name ≡ some node
      → (Memᴰ (path, c) records → HasCopy path c node)
        × (HasCopy path c node → Memᴰ (path, c) records)

-- Of a plan: every account to keep is recorded, and every other has no records.
pub record IsFaithful (legacy : Nodes) (vault : Option Nodes) (p : Plan) : Type 0 where
  pub kept : All (λ (a : Account). IsRecorded legacy vault a.0 a.1) p.accounts
  pub empties : All (λ name. IsRecorded legacy vault name []) p.empty_accounts

differs-has :
    (o : Option Node) (node : Node) (records : Table Content)
    → differs o records ≡ false
    → o ≡ some node
    → has_records node records ≡ true
differs-has none node records d e = absurd cc
differs-has (some found) node records d e =
    ap (λ (n : Node). has_records n records) (sym (some-injective e))
    ∙ kept (has_records found records) d
  where
    kept : (b : Bool) → not b ≡ false → b ≡ true
    kept b h = ground arith

module _ (legacy : Nodes) (vault : Option Nodes) where
  same-IsFaithful :
      (p q : Plan) → SameAccounts p q → IsFaithful legacy vault p → IsFaithful legacy vault q
  same-IsFaithful p q s h = record {
    kept = subst (All (λ (a : Account). IsRecorded legacy vault a.0 a.1)) (sym s.0) h.kept;
    empties = subst (All (λ name. IsRecorded legacy vault name [])) (sym s.1) h.empties;
  }

  snoc_lem {ℓ} :
      {A : Type ℓ} (P : A → Type 0) (xs : List A) (x : A) → All P xs → P x → All P (xs ++ x ∷ [])
  snoc_lem P [] x h k = (k, tt)
  snoc_lem P (y ∷ xs) x h k = (h.0, snoc_lem P xs x h.1 k)

  keep-IsFaithful :
      (name : String) (records : Table Content) (p : Plan)
      → IsFaithful legacy vault p
      → IsRecorded legacy vault name records
      → IsFaithful legacy vault (keep_account name records p)
  keep-IsFaithful name [] p h r = record {
    kept = h.kept;
    empties = snoc_lem (λ n. IsRecorded legacy vault n []) p.empty_accounts name h.empties r;
  }
  keep-IsFaithful name (c ∷ records) p h r = record {
    kept =
        snoc_lem (λ (a : Account). IsRecorded legacy vault a.0 a.1) p.accounts (name, c ∷ records)
          h.kept r;
    empties = h.empties;
  }

  account-IsFaithful :
      (name : String) (node : Node) (p q : Plan)
      → Within name node legacy
      → add_account vault name node p ≡ some q
      → IsFaithful legacy vault p
      → IsFaithful legacy vault q
  unfolding add_account
  account-IsFaithful name (link b) p q m e h = absurd cc
  account-IsFaithful name (file c) p q m e h = absurd cc
  account-IsFaithful name (directory entries) p q m e h =
      go (only_kept entries) (add_owned path (find "projects" entries) p) refl e
    where
      path : String
      path = "data/accounts/" +s name +s "/projects"

      records_lem :
          (n : Plan) (o : Option (Table Content))
          → records_of entries ≡ o
          → IsFaithful legacy vault n
          → keep_records vault name o n ≡ some q
          → IsFaithful legacy vault q
      records_lem n none r h e = absurd cc
      records_lem n (some records) r h e = agree (differs (in_vault vault name) records) refl e
        where
          agree :
              (b : Bool)
              → differs (in_vault vault name) records ≡ b
              → (if b then none else some (keep_account name records n)) ≡ some q
              → IsFaithful legacy vault q
          agree true d e = absurd cc
          agree false d e = subst (IsFaithful legacy vault) (some-injective e) (
              keep-IsFaithful name records n h (record {
                entries = entries;
                listed = m;
                every = λ at c. records-Listed at c entries records r;
                only = λ at c. records-HasRecord at c entries records r;
                agrees = λ node at c f.
                    copy_lem at c node records (differs-has (in_vault vault name) node records d f);
              }))

      go :
          (b : Bool) (o : Option Plan)
          → add_owned path (find "projects" entries) p ≡ o
          → (if not b
              then none
              else elim o [ none ↦ none | some n ↦ keep_records vault name (records_of entries) n ])
            ≡ some q
          → IsFaithful legacy vault q
      go false o f e = absurd cc
      go true none f e = absurd cc
      go true (some n) f e =
          records_lem n (records_of entries) refl
            (same-IsFaithful p n (owned-SameAccounts path (find "projects" entries) p n f) h) e

  accounts-IsFaithful :
      (rest : Nodes) (p q : Plan)
      → ((name : String) (node : Node) → Within name node rest → Within name node legacy)
      → add_accounts vault rest p ≡ some q
      → IsFaithful legacy vault p
      → IsFaithful legacy vault q
  unfolding add_accounts
  accounts-IsFaithful no_more p q m e h = subst (IsFaithful legacy vault) (some-injective e) h
  accounts-IsFaithful (entry name node rest) p q m e h =
      go (add_account vault name node p) refl
        (λ n. accounts-IsFaithful rest n q (λ k d w. m k d (there name node rest w))) e
    where
      go :
          (o : Option Plan)
          → add_account vault name node p ≡ o
          → ((n : Plan)
              → add_accounts vault rest n ≡ some q
              → IsFaithful legacy vault n
              → IsFaithful legacy vault q)
          → elim o [ none ↦ none | some n ↦ add_accounts vault rest n ] ≡ some q
          → IsFaithful legacy vault q
      go none f later e = absurd cc
      go (some n) f later e =
          later n e (account-IsFaithful name node p n (m name node (here rest)) f h)

-- The directory data/accounts, empty where it is not there.
abbrev pub legacy_of : Workspace → Nodes
legacy_of w = elim w.legacy [ none ↦ no_more | some entries ↦ entries ]

-- A plan that is made keeps, for every account that it is going to remove, as records exactly the
-- files of that account's directory, with their digests and permissions, that are not below its
-- projects, and whatever the vault had for the account has just these files; it calls an account
-- empty only if there is no such file.
pub plan-IsFaithful :
    (w : Workspace) (p : Plan) → plan_of w ≡ some p → IsFaithful (legacy_of w) w.vault p
unfolding plan_of
plan-IsFaithful w p h = ordinary_lem w.projects (accounts_of w.vault w.legacy empty_plan) refl (
    guards_lem (not w.is_workspace) w.boundary_is_link (not w.deletes_safely)
      (not (only_accounts w.data_names))
      (ordinary_of w.projects (accounts_of w.vault w.legacy empty_plan)) h)
  where
    guards_lem :
        (a b c d : Bool) (o : Option Plan)
        → (if a then none else if b then none else if c then none else if d then none else o)
          ≡ some p
        → o ≡ some p
    guards_lem a b c d o h = ground arith

    legacy_lem :
        (o : Option Nodes) (q : Plan)
        → w.legacy ≡ o
        → accounts_of w.vault o empty_plan ≡ some q
        → IsFaithful (elim o [ none ↦ no_more | some entries ↦ entries ]) w.vault q
    legacy_lem none q e h =
        subst (IsFaithful no_more w.vault) (some-injective h) (record { kept = tt; empties = tt })
    legacy_lem (some entries) q e h =
        accounts-IsFaithful entries w.vault entries empty_plan q (λ name node m. m) h
          (record { kept = tt; empties = tt })

    ordinary_lem :
        (projects : Option Nodes) (o : Option Plan)
        → accounts_of w.vault w.legacy empty_plan ≡ o
        → ordinary_of projects o ≡ some p
        → IsFaithful (legacy_of w) w.vault p
    ordinary_lem projects none e h = absurd cc
    ordinary_lem none (some q) e h =
        subst (IsFaithful (legacy_of w) w.vault) (some-injective h) (legacy_lem w.legacy q refl e)
    ordinary_lem (some projects) (some q) e h =
        same-IsFaithful (legacy_of w) w.vault q p (ordinary-SameAccounts projects q p h)
          (legacy_lem w.legacy q refl e)
