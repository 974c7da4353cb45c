-- ===== src/ProjectState/Committed.antt =====
-- When files count as committed.
use lean_fm.Common.{
  String, Bool, true, false, not, ◌&&◌, ◌||◌, some, List, [], ◌∷◌, some-injective, ◌≡◌, refl, sym,
  ap, ◌∙◌, subst, ◌↔◌, ◌⊎◌, inl, inr, arith, ◌==◌, all, filter, cons_if, All, eq_iff,
}
use lean_fm.ProjectState.Git.{
  Answers, contains, is_inside, dirty_of, is_uncommitted, git_status, committed,
}

contains-filter :
    (p : String → Bool) (path : String) (xs : List String)
    → contains path (filter p xs) ≡ (contains path xs && p path)
contains-filter p path [] = refl
contains-filter p path (x ∷ xs) = go (p x) refl (x == path) refl (contains-filter p path xs)
  where
    go :
        (b : Bool)
        → p x ≡ b
        → (c : Bool) → (x == path) ≡ c
        → contains path (filter p xs) ≡ (contains path xs && p path)
        → contains path (cons_if b x (filter p xs)) ≡ ((c || contains path xs) && p path)
    go true e true f rest =
        let holds : p path ≡ true = subst (λ z. p z ≡ true) ((eq_iff x path).0 f) e in
        ground (arith, f, holds)
    go true e false f rest = ground (arith, f, rest)
    go false e true f rest =
        let fails : p path ≡ false = subst (λ z. p z ≡ false) ((eq_iff x path).0 f) e in
        ground (arith, rest, fails)
    go false e false f rest = rest

-- A file of the group that git follows as it is, or that is not one of the files asked about.
unfoldable pub IsClean : Answers → List String → String → Type 0
unfolding dirty_of
IsClean git paths path =
    (contains path (filter git.exists paths) ≡ false)
    ⊎ ((contains path (git.tracked (filter git.exists paths)) ≡ true)
        × (contains path
              (dirty_of (git.changed (filter git.exists paths)) (filter git.exists paths))
            ≡ false))

clash : true ≡ false → ⊥
clash e = absurd cc

-- Of one path, in the terms of the two tests that `committed` makes.
IsClean-iff :
    (git : Answers) (paths : List String) (path : String)
    → ((not (contains path (filter git.exists paths))
          || not (is_uncommitted git (filter git.exists paths) path))
        ≡ true)
      ↔ IsClean git paths path
unfolding IsClean is_uncommitted
IsClean-iff git paths path =
    parts (contains path (filter git.exists paths))
      (contains path (git.tracked (filter git.exists paths)))
      (contains path (dirty_of (git.changed (filter git.exists paths)) (filter git.exists paths)))
  where
    parts :
        (there tracked changed : Bool)
        → ((not there || not (not tracked || changed)) ≡ true)
          ↔ ((there ≡ false) ⊎ ((tracked ≡ true) × (changed ≡ false)))
    parts false tracked changed = (λ h. inl refl, λ h. refl)
    parts true true true =
        (λ h. absurd cc, λ h. elim h [ inl e ↦ absurd cc | inr e ↦ absurd (clash e.1) ])
    parts true true false = (λ h. inr (refl, refl), λ h. refl)
    parts true false changed =
        (λ h. absurd cc, λ h. elim h [ inl e ↦ absurd cc | inr e ↦ absurd (clash (sym e.0)) ])

and_parts : (a b : Bool) → (a && b) ≡ true → (a ≡ true) × (b ≡ true)
and_parts a b h = ground arith

and_both : (a b : Bool) → a ≡ true → b ≡ true → (a && b) ≡ true
and_both a b h k = ground arith

-- The loop of `committed` over a group.
group_iff :
    (git : Answers) (paths marked : List String) (group : List String)
    → ((path : String)
        → contains path marked ≡ (
            contains path (filter git.exists paths)
            && is_uncommitted git (filter git.exists paths) path))
    → (all
          (λ path. not (contains path marked))
          (filter (λ path. contains path (filter git.exists paths)) group)
        ≡ true)
      ↔ All (IsClean git paths) group
group_iff git paths marked [] h = (λ e. tt, λ e. refl)
group_iff git paths marked (x ∷ group) h =
    let rest = group_iff git paths marked group h in
    let here = IsClean-iff git paths x in
    let split = step (contains x (filter git.exists paths)) _ (h x) in
    let parts =
      and_parts
        (not (contains x (filter git.exists paths))
          || not (is_uncommitted git (filter git.exists paths) x))
        (all test kept) in
    let whole =
      and_both
        (not (contains x (filter git.exists paths))
          || not (is_uncommitted git (filter git.exists paths) x))
        (all test kept) in
    (
      λ e. let (now, later) = parts (sym split ∙ e) in (here.0 now, rest.0 later),
      λ e. split ∙ whole (here.1 e.0) (rest.1 e.1),
    )
  where
    test : String → Bool
    test path = not (contains path marked)

    kept : List String
    kept = filter (λ path. contains path (filter git.exists paths)) group

    step :
        (there bad : Bool)
        → contains x marked ≡ (there && bad)
        → all test (cons_if there x kept) ≡ ((not there || not bad) && all test kept)
    step true bad e = ap (λ b. not b && all test kept) e
    step false bad e = refl

-- In a repository that does not ignore the project, a group of files counts as committed exactly
-- if git tracks every one of them that exists, and reports no change of it against the last commit.
pub committed_iff :
    (git : Answers) (sorted : List String → List String) (paths group : List String)
    → ((xs : List String) (path : String) → contains path (sorted xs) ≡ contains path xs)
    → is_inside git.inside ≡ true
    → git.is_ignored ≡ false
    → (committed (git_status git sorted paths) group ≡ some true) ↔ All (IsClean git paths) group
unfolding committed git_status
committed_iff git sorted paths group keeps inside visible =
    let existing = filter git.exists paths in
    let seen : git_status git sorted paths ≡ record {
      repository = true;
      existing = existing;
      uncommitted = sorted (filter (is_uncommitted git existing) existing);
    } =
      rw inside (rw visible refl) in
    let verdict = ap (λ s. committed s group) seen in
    let loop =
      group_iff git paths (sorted (filter (is_uncommitted git existing) existing)) group
        (λ path. keeps _ path ∙ contains-filter (is_uncommitted git existing) path existing) in
    (λ e. loop.0 (some-injective (sym verdict ∙ e)), λ e. verdict ∙ ap some (loop.1 e))
