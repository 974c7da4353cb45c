-- ===== src/Sandbox/Checks.antt =====
-- `main` of scripts/chatui_command_runner.py: the checks that a project may run.
use lean_fm.Common.{
  ℕ, String, Bool, true, false, not, ◌&&◌, ◌||◌, Option, none, some, List, [], ◌∷◌, if◌then◌else◌,
  ◌==◌, ltb, eqb, get_or,
}

pub data Operation : Type 0 where
  build check http_check test runtime go book other : Operation

-- The first Makefile: `declares` is the search of its text for a line that declares the target.
pub record Makefile : Type 0 where
  pub is_link : Bool
  pub size : ℕ
  pub declares : Operation → Bool

-- The object that the runtime's probe prints.
pub record Observed : Type 0 where
  pub status : String
  pub revision : Option String

-- What a run finds of the project, before and after the command, and what the command does.
pub record Project : Type 0 where
  pub is_application : Bool
  pub source_is_link : Bool
  pub has_go_module : Bool
  pub makefile : Option Makefile
  pub has_contract : Bool
  pub revision_before : String
  pub revision_after : String
  pub cache_is_link : Bool
  pub book_escapes : Bool
  pub log_is_link : Bool
  pub log_was_replaced : Bool
  pub exit_code : List String → ℕ
  pub observed : Option Observed

pub data Reason : Type 0 where
  source_link no_makefile bad_makefile no_target no_contract cache_link escaping_book
        unknown_check :
      Reason
  log_link log_replaced runtime_changed : Reason

-- reports/runtime-check/validation.json
pub record Receipt : Type 0 where
  pub status : String
  pub revision : String
  pub exit_code : ℕ

-- The command that ran, its exit code, and the receipt that is written.
pub data Outcome : Type 0 where
  refused : (was_run : Option (List String)) → Reason → Outcome
  ended : (command : List String) → (exit_code : ℕ) → (receipt : Option Receipt) → Outcome

abbrev pub uses_make : Operation → Bool
uses_make build = true
uses_make check = true
uses_make http_check = true
uses_make test = true
uses_make _ = false

abbrev pub is_runtime : Operation → Bool
is_runtime runtime = true
is_runtime _ = false

abbrev pub is_book : Operation → Bool
is_book book = true
is_book _ = false

unfoldable pub makefile_fault : Operation → Option Makefile → Option Reason
makefile_fault op none = some no_makefile
makefile_fault op (some m) =
    if m.is_link || ltb 2_000_000 m.size
    then some bad_makefile
    else if not (m.declares op)
    then some no_target
    else none

abbrev pub make_root : Project → String
make_root p = if p.is_application then "/work/source" else "/work"

abbrev pub make : Project → String → List String
make p target = "/usr/bin/make" ∷ "-C" ∷ make_root p ∷ target ∷ []

-- `commands`, none of an unknown operation
unfoldable pub command_of : Project → Operation → Option (List String)
command_of p runtime =
    some ("/usr/bin/python3" ∷ "/runtime/chatui_runtime.py" ∷ "probe" ∷ "/work" ∷ [])
command_of p go = some (
    "/go/bin/go"
    ∷ "-C"
    ∷ (if p.has_go_module then "/work/source" else "/work")
    ∷ "test"
    ∷ "./..."
    ∷ [])
command_of p build = some (make p "build")
command_of p check = some (make p "check")
command_of p http_check = some (make p "http-check")
command_of p test = some (make p "test")
command_of p book = some ("/usr/bin/make" ∷ "-C" ∷ "/work/book" ∷ [])
command_of p other = none

-- The checks before the command is chosen.
unfoldable pub early_fault : Project → Operation → Option Reason
unfolding makefile_fault
early_fault p op =
    let make_fault =
      if p.is_application && p.source_is_link
      then some source_link
      else if uses_make op
      then makefile_fault op p.makefile
      else none in
    elim make_fault [
      | some why ↦ some why
      | none ↦
          if is_runtime op && not p.has_contract
          then some no_contract
          else if p.cache_is_link
          then some cache_link
          else if is_book op && p.book_escapes
          then some escaping_book
          else none
    ]

abbrev pub failed_receipt : Project → ℕ → Receipt
failed_receipt p code = record { status = "failed"; revision = p.revision_before; exit_code = code }

-- `receipt.update(observed)`
abbrev pub update : Receipt → Observed → Receipt
update r o = record r { status = o.status; revision = get_or o.revision r.revision }

abbrev pub runtime_receipt : Project → ℕ → Option Observed → Option Receipt
runtime_receipt p code none = none
runtime_receipt p code (some o) =
    if not (o.status == "validated") || not (p.revision_after == p.revision_before)
    then none
    else some (update (failed_receipt p code) o)

-- The receipt of a runtime check, none where it raises.
unfoldable pub receipt_of : Project → ℕ → Option Receipt
receipt_of p code =
    if eqb code 0 then runtime_receipt p code p.observed else some (failed_receipt p code)

abbrev pub settle : List String → ℕ → Option Receipt → Outcome
settle command code none = refused (some command) runtime_changed
settle command code (some receipt) = ended command code (some receipt)

unfoldable pub execute : Project → Operation → List String → Outcome
unfolding receipt_of
execute p op command =
    let code = p.exit_code command in
    if p.log_is_link
    then refused none log_link
    else if p.log_was_replaced
    then refused (some command) log_replaced
    else if is_runtime op
    then settle command code (receipt_of p code)
    else ended command code none

unfoldable pub main : Project → Operation → Outcome
unfolding early_fault command_of execute
main p op = elim (early_fault p op) [
  | some why ↦ refused none why
  | none ↦ elim (command_of p op) [
    | none ↦ refused none unknown_check
    | some command ↦ execute p op command
  ]
]
