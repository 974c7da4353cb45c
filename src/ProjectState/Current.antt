-- ===== src/ProjectState/Current.antt =====
-- `current`.
use lean_fm.Common.{
  ℕ, String, Bool, false, ◌&&◌, Option, none, some, List, [], ◌∷◌, ◌++◌, map, if◌then◌else◌, ◌==◌,
  ◌+s◌, all, eqb,
}
use lean_fm.Common.Table.{Table, lookup}
use lean_fm.ProjectState.Git.{Answers, Status, git_status, committed}

-- reports/specification-check/validation.json; `text` is the object itself.
pub record Report : Type 0 where
  pub status : String
  pub artifacts : Table String
  pub has_implementation : Bool
  pub text : String

-- spec/tasks.json; `view` is the text of its entries "source", "validation" and "tasks".
pub record Catalog : Type 0 where
  pub has_tasks : Bool
  pub errors : Option ℕ
  pub provenance : String
  pub view : String

-- Whether a file can be read in the project, its digest if so, whether spec/tasks.json is there, the two objects, none where one of them
-- cannot be read; the digest of a text and the text of a dictionary.
pub record Files : Type 0 where
  pub is_readable : String → Bool
  pub digest : String → String
  pub has_catalog : Bool
  pub objects : Option (Report × Catalog)
  pub sha256 : String → String
  pub dumps : Table String → String

pub record Part : Type 0 where
  pub revision : String
  pub is_checked : Bool
  pub is_committed : Option Bool

pub record State : Type 0 where
  pub requirements : Part
  pub implementation : Part
  pub files : Table String
  pub git : Status

abbrev pub source_paths : List String
source_paths = "book/main.tex" ∷ "spec/Requirements.lean" ∷ "spec/Requirements.proto" ∷ []

abbrev pub implementation_path : String
implementation_path = "spec/Implementation.lean"

-- `report["artifacts"].get(path) == value`
unfoldable pub is_current : Report → String → String → Bool
unfolding lookup
is_current report path value = elim (lookup path report.artifacts) [
  | none ↦ false
  | some digest ↦ digest == value
]

abbrev pub has_no_errors : Option ℕ → Bool
has_no_errors none = false
has_no_errors (some n) = eqb n 0

unfoldable pub is_checked : Files → Bool
unfolding is_current
is_checked f = elim f.objects [
  | none ↦ false
  | some (report, catalog) ↦
      report.status == "validated"
      && catalog.has_tasks
      && has_no_errors catalog.errors
      && all (λ path. is_current report path (f.digest path)) source_paths
      && catalog.provenance == report.text
]

unfoldable pub is_implemented : Files → Bool
unfolding is_checked is_current
is_implemented f = elim f.objects [
  | none ↦ false
  | some (report, catalog) ↦
      is_checked f
      && report.has_implementation
      && is_current report implementation_path (f.digest implementation_path)
]

abbrev pub source_files : Files → Table String
source_files f = map (λ path. (path, f.digest path)) source_paths

abbrev pub all_files : Files → Table String
all_files f =
    source_files f
    ++ (if f.has_catalog then ("spec/tasks.json", f.digest "spec/tasks.json") ∷ [] else [])

-- The text of the catalog's three entries, of an empty object where there is none to read.
abbrev pub view_of : String → Option (Report × Catalog) → String
view_of empty_view none = empty_view
view_of empty_view (some (report, catalog)) = catalog.view

abbrev pub revision_files : Files → String → Table String
revision_files f empty_view =
    source_files f
    ++ (if f.has_catalog
        then ("spec/tasks.json", f.sha256 (view_of empty_view f.objects)) ∷ []
        else [])

abbrev pub names : Table String → List String
names files = map (λ entry. entry.0) files

unfoldable pub state_of : Answers → (List String → List String) → Files → String → State
unfolding is_checked is_implemented git_status committed
state_of git sorted f empty_view =
    let files = all_files f in
    let revision = f.sha256 (f.dumps (revision_files f empty_view)) in
    let status = git_status git sorted (names files ++ implementation_path ∷ []) in
    record {
      requirements = record {
        revision = revision;
        is_checked = is_checked f;
        is_committed = committed status (names files);
      };
      implementation = record {
        revision = f.sha256 (revision +s f.digest implementation_path);
        is_checked = is_implemented f;
        is_committed = committed status (implementation_path ∷ []);
      };
      files = files;
      git = status;
    }

-- The entry point's status, none where a digest cannot be made.
unfoldable pub current : Answers → (List String → List String) → Files → String → Option State
unfolding state_of
current git sorted f empty_view =
    if all f.is_readable (source_paths ++ implementation_path ∷ [])
    then some (state_of git sorted f empty_view)
    else none
