-- ===== src/ProjectState/Examples.antt =====
-- A specification that is checked, and the files that git follows.
use lean_fm.Common.{
  String, true, false, some, List, [], ◌∷◌, ◌≡◌, ◌≢◌, refl, ◌↔◌, ◌==◌, eq_iff, All, if◌then◌else◌,
}
use lean_fm.ProjectState.Git.{Answers, git_status, committed}
use lean_fm.ProjectState.Current.{Report, Catalog, Files, is_checked, is_implemented}
use lean_fm.ProjectState.Committed.{IsClean, committed_iff}
use lean_fm.ProjectState.Checked.{changed_unchecks}

abbrev answers : Answers
answers = record {
  inside = some (0, "true");
  is_ignored = false;
  exists = λ path. true;
  tracked = λ paths. "book/main.tex" ∷ [];
  changed = λ paths. some [];
}

abbrev asked : List String
asked = "book/main.tex" ∷ "spec/tasks.json" ∷ []

abbrev book : List String
book = "book/main.tex" ∷ []

committed_iff_example :
    (committed (git_status answers (λ xs. xs) asked) book ≡ some true)
    ↔ All (IsClean answers asked) book
committed_iff_example = committed_iff answers (λ xs. xs) asked book (λ xs path. refl) refl refl

abbrev report : Report
report = record {
  status = "validated";
  artifacts =
      ("book/main.tex", "d1")
      ∷ ("spec/Requirements.lean", "d1")
      ∷ ("spec/Requirements.proto", "d1")
      ∷ [];
  has_implementation = false;
  text = "report";
}

abbrev catalog : Catalog
catalog = record { has_tasks = true; errors = some 0; provenance = "report"; view = "tasks" }

abbrev files : Files
files = record {
  is_readable = λ path. true;
  digest = λ path. "d1";
  has_catalog = true;
  objects = some (report, catalog);
  sha256 = λ text. text;
  dumps = λ table. "";
}

files-checked : is_checked files ≡ true
unfolding is_checked
files-checked = refl

abbrev edited : Files
edited = record files { digest = λ path. if path == "book/main.tex" then "d2" else "d1" }

abbrev main_tex : String
main_tex = "book/main.tex"

digests_differ : files.digest main_tex ≢ edited.digest main_tex
digests_differ e = let same : ("d1" == "d2") ≡ true = (eq_iff "d1" "d2").1 e in cc

changed_unchecks_example : (is_checked edited ≡ false) × (is_implemented edited ≡ false)
changed_unchecks_example =
    changed_unchecks files edited main_tex files-checked refl refl digests_differ
