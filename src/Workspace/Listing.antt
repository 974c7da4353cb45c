-- ===== src/Workspace/Listing.antt =====
-- The listing of projects, and their look-up by identity.
use lean_fm.Common.{
  ℕ, ◌+◌, String, ◌≡◌, refl, sym, ap, ◌∙◌, Bool, true, false, not, ◌&&◌, ◌||◌, Option, none, some,
  List, [], ◌∷◌, ◌++◌, if◌then◌else◌, arith, eqb, eqb_iff, ◌==◌, eq_iff, eq_refl, get_or, filter,
  filter-single, cons_if, length, All, subst, all,
}
use lean_fm.Common.Table.{Table, lookup, insert, lookup-insert}
use lean_fm.Workspace.Names.{valid_identity}
use lean_fm.Workspace.Projects.{
  Child, Info, Base, is_base, identity_of, accept, checked, manifest_of, read_project, add_found,
  discover, has_identity, only, project, is_own_root, is_confined, count_identities, list_projects,
}

abbrev Found : Type 0
Found = Child × Info

count_identities_lem :
    (key : String) (l : List Found) (counts : Table ℕ)
    → get_or (lookup key (count_identities l counts)) 0
      ≡ get_or (lookup key counts) 0 + length (filter (has_identity key) l)
unfolding count_identities
count_identities_lem key [] counts = omega arith
count_identities_lem key ((c, info) ∷ rest) counts =
    let k = identity_of info in
    let n : ℕ = get_or (lookup k counts) 0 + 1 in
    let ih = count_identities_lem key rest (insert k n counts) in
    let step = lookup-insert k key n counts in counted (k == key) refl step ih
  where
    counted :
        (hit : Bool)
        → (identity_of info == key) ≡ hit
        → lookup key
            (insert (identity_of info) (get_or (lookup (identity_of info) counts) 0 + 1) counts)
          ≡ (if hit
              then some (get_or (lookup (identity_of info) counts) 0 + 1)
              else lookup key counts)
        → get_or
            (lookup key (
              count_identities rest (
                insert
                  (identity_of info)
                  (get_or (lookup (identity_of info) counts) 0 + 1)
                  counts)))
            0
          ≡ get_or
              (lookup key (
                insert (identity_of info) (get_or (lookup (identity_of info) counts) 0 + 1) counts))
              0
            + length (filter (has_identity key) rest)
        → get_or
            (lookup key (
              count_identities rest (
                insert
                  (identity_of info)
                  (get_or (lookup (identity_of info) counts) 0 + 1)
                  counts)))
            0
          ≡ get_or (lookup key counts) 0 + length (filter (has_identity key) ((c, info) ∷ rest))
    counted true hit step ih =
        let eq : identity_of info ≡ key = (eq_iff (identity_of info) key).0 hit in
        let here : get_or (lookup (identity_of info) counts) 0 ≡ get_or (lookup key counts) 0 =
          ap (λ k. get_or (lookup k counts) 0) eq in
        let now = ap (λ o. get_or o 0) step in
        let row = ap (λ h. length (cons_if h (c, info) (filter (has_identity key) rest))) hit in
        omega (arith, ih, now, here, row)
    counted false hit step ih =
        let now = ap (λ o. get_or o 0) step in
        let row = ap (λ h. length (cons_if h (c, info) (filter (has_identity key) rest))) hit in
        omega (arith, ih, now, row)

abbrev IsValid : (ℕ → Bool) → Found → Type 0
IsValid is_alnum x = valid_identity is_alnum (identity_of x.1) ≡ true

checked-IsValid :
    (is_alnum : ℕ → Bool) (o : Option Info) (info : Info)
    → checked is_alnum o ≡ some info
    → valid_identity is_alnum (identity_of info) ≡ true
unfolding accept
checked-IsValid is_alnum none info e = absurd cc
checked-IsValid is_alnum (some i) info e =
    accepted (valid_identity is_alnum (identity_of i)) (is_own_root i.root)
      (all is_confined i.paths) refl e
  where
    accepted :
        (v r q : Bool)
        → valid_identity is_alnum (identity_of i) ≡ v
        → (if v && r && q then some i else none) ≡ some info
        → valid_identity is_alnum (identity_of info) ≡ true
    accepted v r q h k = ground arith

read_project-IsValid :
    (is_alnum : ℕ → Bool) (c : Child) (info : Info)
    → read_project is_alnum c ≡ some info
    → valid_identity is_alnum (identity_of info) ≡ true
unfolding read_project
read_project-IsValid is_alnum c info e =
    checked-IsValid is_alnum (manifest_of c.manifest c.old_manifest) info (
      passed (c.is_linked || not c.is_dir || not c.is_inside)
        (checked is_alnum (manifest_of c.manifest c.old_manifest)) e)
  where
    passed : (b : Bool) (o : Option Info) → (if b then none else o) ≡ some info → o ≡ some info
    passed true o h = absurd cc
    passed false o h = h

discover-IsValid :
    (is_alnum : ℕ → Bool) (l : List Child) → All (IsValid is_alnum) (discover is_alnum l)
unfolding discover
discover-IsValid is_alnum [] = tt
discover-IsValid is_alnum (c ∷ rest) =
    added (read_project is_alnum c) refl (discover-IsValid is_alnum rest)
  where
    added :
        (o : Option Info)
        → read_project is_alnum c ≡ o
        → All (IsValid is_alnum) (discover is_alnum rest)
        → All (IsValid is_alnum) (add_found c o (discover is_alnum rest))
    added none e h = h
    added (some info) e h = (read_project-IsValid is_alnum c info e, h)

module _ (is_alnum : ℕ → Bool) (b : Base) (found : List Found) (counts : Table ℕ) where
  abbrev Resolves : Found → Type 0
  Resolves x = project is_alnum b (identity_of x.1) ≡ some x

  abbrev is_row : Found → Bool
  is_row x = eqb (get_or (lookup (identity_of x.1) counts) 0) 1

  abbrev Counts : Type 0
  Counts = (key : String) → get_or (lookup key counts) 0 ≡ length (filter (has_identity key) found)

  row-Resolves :
      (before : List Found) (x : Found) (after : List Found)
      → is_base b ≡ true
      → discover is_alnum b.children ≡ found
      → found ≡ before ++ x ∷ after
      → Counts
      → IsValid is_alnum x
      → is_row x ≡ true
      → Resolves x
  unfolding project
  row-Resolves before x after base read split counted valid row =
      let name = identity_of x.1 in
      let one : length (filter (has_identity name) found) ≡ 1 =
        sym (counted name) ∙ (eqb_iff _ _).0 row in
      let single : filter (has_identity name) (before ++ x ∷ after) ≡ x ∷ [] =
        filter-single (has_identity name) before x after (eq_refl name)
          (ap (λ (l : List Found). length (filter (has_identity name) l)) (sym split) ∙ one) in
      let matches : filter (has_identity name) (discover is_alnum b.children) ≡ x ∷ [] =
        ap (filter (has_identity name)) (read ∙ split) ∙ single in
      let both : (valid_identity is_alnum name && is_base b) ≡ true = rw (valid, base) refl in
      ap
        (λ (c : Bool).
          if c then only (filter (has_identity name) (discover is_alnum b.children)) else none)
        both
      ∙ ap only matches

  rows-Resolve :
      (before l : List Found)
      → is_base b ≡ true
      → discover is_alnum b.children ≡ found
      → found ≡ before ++ l
      → Counts
      → All (IsValid is_alnum) l
      → All Resolves (filter is_row l)
  rows-Resolve before [] base read split counted valid = tt
  rows-Resolve before (x ∷ l) base read split counted valid =
      let rest =
        rows-Resolve (before ++ x ∷ []) l base read (split ∙ sym (append-snoc before)) counted
          valid.1 in
      kept (is_row x) (λ row. row-Resolves before x l base read split counted valid.0 row) rest
    where
      append-snoc : (xs : List Found) → (xs ++ x ∷ []) ++ l ≡ xs ++ x ∷ l
      append-snoc [] = refl
      append-snoc (y ∷ xs) = ap (λ (m : List Found). y ∷ m) (append-snoc xs)

      kept :
          (h : Bool)
          → (h ≡ true → Resolves x)
          → All Resolves (filter is_row l)
          → All Resolves (cons_if h x (filter is_row l))
      kept true f rest = (f refl, rest)
      kept false f rest = rest

counts-fresh :
    (found : List Found) (key : String)
    → get_or (lookup key (count_identities found [])) 0 ≡ length (filter (has_identity key) found)
unfolding lookup
counts-fresh found key = omega (arith, count_identities_lem key found [])

-- Every project that the operation `list` shows is the one that its identity resolves to: no row is
-- ambiguous, refused by the look-up, or shadowed by another directory.
pub list_resolves :
    (is_alnum : ℕ → Bool) (b : Base) (rows : List Found)
    → list_projects is_alnum b ≡ some rows
    → All (λ (x : Found). project is_alnum b (identity_of x.1) ≡ some x) rows
unfolding list_projects
list_resolves is_alnum b rows e =
    let found = discover is_alnum b.children in
    let counts = count_identities found [] in
    let (base, same) = listed (is_base b) (filter (is_row is_alnum b found counts) found) e in
    subst (All (Resolves is_alnum b found counts)) same (
      rows-Resolve is_alnum b found counts [] found base refl refl (counts-fresh found)
        (discover-IsValid is_alnum b.children))
  where
    listed :
        (c : Bool) (l : List Found)
        → (if c then some l else none) ≡ some rows
        → (c ≡ true) × (l ≡ rows)
    listed true l h = (refl, cc)
    listed false l h = absurd cc
