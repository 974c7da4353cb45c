-- ===== src/ProjectState/Checked.antt =====
-- When a specification counts as checked.
use lean_fm.Common.{
  ℕ, String, Bool, true, false, ◌&&◌, ◌||◌, ◌⊎◌, inl, inr, Bool-cases, Option, none, some, ◌≡◌, ◌≢◌,
  refl, sym, ap, ◌∙◌, ◌==◌, all, arith, eq_iff, some-injective,
}
use lean_fm.Common.Table.{lookup}
use lean_fm.ProjectState.Git.{contains}
use lean_fm.ProjectState.Current.{
  Report, Catalog, Files, source_paths, implementation_path, is_current, has_no_errors, is_checked,
  is_implemented,
}

is_current-lookup :
    (report : Report) (path value : String)
    → is_current report path value ≡ true
    → lookup path report.artifacts ≡ some value
unfolding is_current
is_current-lookup report path value h = go (lookup path report.artifacts) refl h
  where
    go :
        (o : Option String)
        → lookup path report.artifacts ≡ o
        → elim o [ none ↦ false | some digest ↦ digest == value ] ≡ true
        → lookup path report.artifacts ≡ some value
    go none e h = absurd cc
    go (some d) e h = e ∙ ap some ((eq_iff d value).0 h)

-- What the two objects say of the files.
pub record IsChecked (f : Files) (report : Report) (catalog : Catalog) : Type 0 where
  pub read : f.objects ≡ some (report, catalog)
  pub validated : report.status ≡ "validated"
  pub has_tasks : catalog.has_tasks ≡ true
  pub no_errors : catalog.errors ≡ some 0
  pub book : lookup "book/main.tex" report.artifacts ≡ some (f.digest "book/main.tex")
  pub lean :
      lookup "spec/Requirements.lean" report.artifacts ≡ some (f.digest "spec/Requirements.lean")
  pub proto :
      lookup "spec/Requirements.proto" report.artifacts ≡ some (f.digest "spec/Requirements.proto")
  pub provenance : catalog.provenance ≡ report.text

errors_lem : (o : Option ℕ) → has_no_errors o ≡ true → o ≡ some 0
errors_lem none h = absurd cc
errors_lem (some n) h = ap some (ground (arith, h))

parts_lem :
    (a b c d e f g : Bool)
    → (a && b && c && (d && (e && (f && true))) && g) ≡ true
    → (a ≡ true) × (b ≡ true) × (c ≡ true) × (d ≡ true) × (e ≡ true) × (f ≡ true) × (g ≡ true)
parts_lem a b c d e f g h = ground arith

-- Requirements count as checked only by a validated report, which is the catalog's provenance, and
-- a catalog with tasks and without errors, and only if the report names the digests that the book
-- and the two files of requirements have now.
pub is_checked-IsChecked :
    (f : Files)
    → is_checked f ≡ true
    → (report : Report) × (catalog : Catalog) × IsChecked f report catalog
unfolding is_checked
is_checked-IsChecked f h = go f.objects refl h
  where
    go :
        (o : Option (Report × Catalog))
        → f.objects ≡ o
        → elim o [
          | none ↦ false
          | some (report, catalog) ↦
              report.status == "validated"
              && catalog.has_tasks
              && has_no_errors catalog.errors
              && all (λ path. is_current report path (f.digest path)) source_paths
              && catalog.provenance == report.text
        ]
          ≡ true
        → (report : Report) × (catalog : Catalog) × IsChecked f report catalog
    go none e h = absurd cc
    go (some (report, catalog)) e h =
        let (a, b, c, d, l, p, g) =
          parts_lem (report.status == "validated") catalog.has_tasks (has_no_errors catalog.errors)
            (is_current report "book/main.tex" (f.digest "book/main.tex"))
            (is_current report "spec/Requirements.lean" (f.digest "spec/Requirements.lean"))
            (is_current report "spec/Requirements.proto" (f.digest "spec/Requirements.proto"))
            (catalog.provenance == report.text) h in
        (
          report,
          catalog,
          record {
            read = e;
            validated = (eq_iff report.status "validated").0 a;
            has_tasks = b;
            no_errors = errors_lem catalog.errors c;
            book = is_current-lookup report "book/main.tex" _ d;
            lean = is_current-lookup report "spec/Requirements.lean" _ l;
            proto = is_current-lookup report "spec/Requirements.proto" _ p;
            provenance = (eq_iff catalog.provenance report.text).0 g;
          },
        )

source_cases :
    (path : String)
    → contains path source_paths ≡ true
    → (path ≡ "book/main.tex")
      ⊎ ((path ≡ "spec/Requirements.lean") ⊎ (path ≡ "spec/Requirements.proto"))
source_cases path h =
    go ("book/main.tex" == path) ("spec/Requirements.lean" == path)
      ("spec/Requirements.proto" == path) refl refl refl h
  where
    go :
        (a b c : Bool)
        → ("book/main.tex" == path) ≡ a
        → ("spec/Requirements.lean" == path) ≡ b
        → ("spec/Requirements.proto" == path) ≡ c
        → (a || (b || (c || false))) ≡ true
        → (path ≡ "book/main.tex")
          ⊎ ((path ≡ "spec/Requirements.lean") ⊎ (path ≡ "spec/Requirements.proto"))
    go true b c ea eb ec h = inl (sym ((eq_iff _ path).0 ea))
    go false true c ea eb ec h = inr (inl (sym ((eq_iff _ path).0 eb)))
    go false false true ea eb ec h = inr (inr (sym ((eq_iff _ path).0 ec)))
    go false false false ea eb ec h = absurd cc

-- Two checks against the same report saw the same digests.
same_digest :
    (f g : Files) (path : String)
    → is_checked f ≡ true
    → is_checked g ≡ true
    → g.objects ≡ f.objects
    → contains path source_paths ≡ true
    → f.digest path ≡ g.digest path
same_digest f g path hf hg same source =
    let (rf, cf, kf) = is_checked-IsChecked f hf in
    let (rg, cg, kg) = is_checked-IsChecked g hg in
    let pairs : ◌≡◌ {A = Report × Catalog} (rg, cg) (rf, cf) =
      some-injective (sym kg.read ∙ same ∙ kf.read) in
    let reports : rg ≡ rf = ap (λ p. p.0) pairs in
    let seen : (name : String) → lookup name rf.artifacts ≡ lookup name rg.artifacts =
      λ name. ap (λ r. lookup name (Report.artifacts r)) (sym reports) in
    let at : (name : String)
        → lookup name rf.artifacts ≡ some (f.digest name)
        → lookup name rg.artifacts ≡ some (g.digest name)
        → path ≡ name
        → f.digest path ≡ g.digest path =
      λ name a b e. ap f.digest e ∙ some-injective (sym a ∙ seen name ∙ b) ∙ ap g.digest (sym e) in
    elim (source_cases path source) [
      | inl e ↦ at "book/main.tex" kf.book kg.book e
      | inr (inl e) ↦ at "spec/Requirements.lean" kf.lean kg.lean e
      | inr (inr e) ↦ at "spec/Requirements.proto" kf.proto kg.proto e
    ]

-- Once any of the three files has another digest than when the requirements counted as checked,
-- they no longer do, and no implementation does, as long as the report stays.
pub changed_unchecks :
    (f g : Files) (path : String)
    → is_checked f ≡ true
    → g.objects ≡ f.objects
    → contains path source_paths ≡ true
    → f.digest path ≢ g.digest path
    → (is_checked g ≡ false) × (is_implemented g ≡ false)
unfolding is_implemented
changed_unchecks f g path h same source differs = elim (Bool-cases (is_checked g)) [
  | inl checked ↦ absurd (differs (same_digest f g path h checked same source))
  | inr unchecked ↦ (unchecked, no_part g.objects unchecked)
]
  where
    no_part :
        (o : Option (Report × Catalog))
        → is_checked g ≡ false
        → elim o [
          | none ↦ false
          | some (report, catalog) ↦
              is_checked g
              && report.has_implementation
              && is_current report implementation_path (g.digest implementation_path)
        ]
          ≡ false
    no_part none e = refl
    no_part (some (report, catalog)) e =
        ap
          (λ b.
            b
            && report.has_implementation
            && is_current report implementation_path (g.digest implementation_path))
          e
