-- ===== src/Specification/Check.antt =====
-- `check`: its tests in their order, and the views that it promotes.
use lean_fm.Common.{
  ℕ, String, Bool, true, false, not, ◌&&◌, ◌||◌, Option, none, some, List, [], ◌∷◌, leb, eqb,
  if◌then◌else◌, ◌==◌, is_empty, is_letter, is_digit, all,
}
use Prim.Native.Char.{code}

abbrev pub is_start : ℕ → Bool
is_start c = is_letter c || eqb c b'_'

-- IDENTIFIER, told whether a new component begins
unfoldable pub is_dotted : Bool → String → Bool
is_dotted begins String.[] = not begins
is_dotted begins (String.◌∷◌ c s) =
    let inside = is_dotted false s in
    let next = is_dotted true s in
    if begins
    then is_start (code c) && inside
    else if eqb (code c) b'.'
    then next
    else (is_start (code c) || is_digit (code c)) && inside

-- An argument that is given is a dotted name.
abbrev pub is_name : String → Bool
is_name s = is_empty s || is_dotted true s

-- How a run of the compiler ends: with an exit code, and whether its output shows that the sandbox
-- or a thread failed; or at its deadline.
pub data Run : Type 0 where
  ended : (exit_code : ℕ) (local_failure : Bool) → Run
  timed_out : Run

-- The derived catalog: its count of errors, its number of tasks, and whether one lacks a grammar.
pub record Catalog : Type 0 where
  pub errors : Option ℕ
  pub tasks : ℕ
  pub lacks_grammar : Bool

abbrev pub Digests : Type 0
Digests = List (String × String)

pub record World : Type 0 where
  pub is_linked : Bool
  pub input_sizes : List (Option ℕ)
  pub has_sandbox : Bool
  pub is_free : Bool
  pub is_built : Bool
  pub before : Digests
  pub after : Digests
  pub requirements_run : Run
  pub implementation_run : Run
  pub views_run : Run
  pub catalog : Option Catalog

pub record Report : Type 0 where
  pub requirement : String
  pub implementation : String
  pub artifacts : Digests
  pub task_count : ℕ

-- spec/tasks.json and the report on it.
pub record Views : Type 0 where
  pub catalog : Option Catalog
  pub report : Option Report

pub data Fault : Type 0 where
  bad_name no_requirement linked_root bad_input no_sandbox busy not_built : Fault
  checker_failed rejected bad_catalog missing_grammar inputs_changed : Fault

-- The exit code of the script: 78 where the checker itself failed.
abbrev pub exit_code_of : Fault → ℕ
exit_code_of no_sandbox = 78
exit_code_of checker_failed = 78
exit_code_of _ = 1

abbrev pub is_bounded : Option ℕ → Bool
is_bounded none = false
is_bounded (some size) = leb size 2_000_000

abbrev pub run_fault : Run → Option Fault
run_fault timed_out = some checker_failed
run_fault (ended exit_code local_failure) =
    if eqb exit_code 0 then none else if local_failure then some checker_failed else some rejected

unfoldable pub or_else : Option Fault → Option Fault → Option Fault
or_else (some fault) rest = some fault
or_else none rest = rest

unfoldable pub unless : Bool → Fault → Option Fault → Option Fault
unless holds fault rest = if holds then rest else some fault

-- The implementation is compiled where one is named.
abbrev pub implementation_fault : World → String → Option Fault
implementation_fault w implementation =
    if is_empty implementation then none else run_fault w.implementation_run

abbrev pub is_catalog : Option Catalog → Bool
is_catalog none = false
is_catalog (some c) = (elim c.errors [ none ↦ false | some n ↦ eqb n 0 ]) && not (eqb c.tasks 0)

abbrev pub has_grammars : Option Catalog → Bool
has_grammars none = false
has_grammars (some c) = not c.lacks_grammar

unfoldable pub same_digests : Digests → Digests → Bool
same_digests [] [] = true
same_digests ((a, x) ∷ rest) ((b, y) ∷ others) =
    let same = same_digests rest others in a == b && x == y && same
same_digests _ _ = false

-- The first test that fails.
unfoldable pub first_fault : World → String → String → String → Option Fault
unfolding same_digests is_dotted
first_fault w requirement implementation constraints =
    unless (is_name requirement && is_name implementation && is_name constraints) bad_name (
      unless (not (is_empty requirement)) no_requirement (
        unless (not w.is_linked) linked_root (
          unless (all is_bounded w.input_sizes) bad_input (
            unless w.has_sandbox no_sandbox (
              unless w.is_free busy (
                unless w.is_built not_built (
                  or_else (run_fault w.requirements_run) (
                    or_else (implementation_fault w implementation) (
                      or_else (run_fault w.views_run) (
                        unless (is_catalog w.catalog) bad_catalog (
                          unless (has_grammars w.catalog) missing_grammar
                            (unless (same_digests w.before w.after) inputs_changed none))))))))))))

abbrev pub task_count : Option Catalog → ℕ
task_count none = 0
task_count (some c) = c.tasks

abbrev pub promoted : World → String → String → Views
promoted w requirement implementation = record {
  catalog = w.catalog;
  report = some (record {
    requirement = requirement;
    implementation = implementation;
    artifacts = w.before;
    task_count = task_count w.catalog;
  });
}

abbrev pub outcome : World → String → String → Views → Option Fault → Option Fault × Views
outcome w requirement implementation views (some fault) = (some fault, views)
outcome w requirement implementation views none = (none, promoted w requirement implementation)

-- The fault, if there is one, and the views that are left.
unfoldable pub check : World → String → String → String → Views → Option Fault × Views
unfolding first_fault
check w requirement implementation constraints views =
    outcome w requirement implementation views
      (first_fault w requirement implementation constraints)
