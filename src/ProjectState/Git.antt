-- ===== src/ProjectState/Git.antt =====
-- `git_status`.
use lean_fm.Common.{
  ℕ, String, Bool, true, false, not, ◌&&◌, ◌||◌, Option, none, some, List, [], if◌then◌else◌, ◌==◌,
  any, all, filter, eqb,
}

-- What git answers in the project's directory: the exit code and the text of `rev-parse`, none
-- where it does not run, whether it ignores the directory, the names that `ls-files` and `diff`
-- print for a list of paths, none where `diff` fails; and which paths exist.
pub record Answers : Type 0 where
  pub inside : Option (ℕ × String)
  pub is_ignored : Bool
  pub exists : String → Bool
  pub tracked : List String → List String
  pub changed : List String → Option (List String)

-- `path in paths`
abbrev pub contains : String → List String → Bool
contains path paths = any (λ p. p == path) paths

pub record Status : Type 0 where
  pub repository : Bool
  pub existing : List String
  pub uncommitted : List String

abbrev pub no_repository : Status
no_repository = record { repository = false; existing = []; uncommitted = [] }

abbrev pub is_inside : Option (ℕ × String) → Bool
is_inside none = false
is_inside (some (code, text)) = eqb code 0 && text == "true"

-- `dirty`
unfoldable pub dirty_of : Option (List String) → List String → List String
dirty_of none existing = existing
dirty_of (some names) existing = names

unfoldable pub is_uncommitted : Answers → List String → String → Bool
unfolding dirty_of
is_uncommitted git existing path =
    not (contains path (git.tracked existing))
    || contains path (dirty_of (git.changed existing) existing)

-- `sorted` is Python's function.
unfoldable pub git_status : Answers → (sorted : List String → List String) → List String → Status
unfolding is_uncommitted
git_status git sorted paths =
    let existing = filter git.exists paths in
    if not (is_inside git.inside)
    then no_repository
    else if git.is_ignored
    then no_repository
    else record {
      repository = true;
      existing = existing;
      uncommitted = sorted (filter (is_uncommitted git existing) existing);
    }

-- The entry "committed": none without a repository.
unfoldable pub committed : Status → List String → Option Bool
committed s group =
    if s.repository
    then some (
        all (λ path. not (contains path s.uncommitted))
          (filter (λ path. contains path s.existing) group))
    else none
