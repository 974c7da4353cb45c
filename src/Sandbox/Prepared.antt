-- ===== src/Sandbox/Prepared.antt =====
-- What a project needs for a check, and the branches of `main`.
use lean_fm.Common.{
  ℕ, String, Bool, true, false, not, ◌&&◌, Option, none, some, List, ◌≡◌, refl, sym, ap, ◌∙◌, arith,
  if◌then◌else◌, ◌≤◌, [], ◌∷◌, some-injective,
}
use lean_fm.Sandbox.Checks.{
  Operation, build, check, http_check, test, runtime, go, book, other, Makefile, Project, Reason,
  source_link, no_contract, cache_link, escaping_book, Receipt, log_link, log_replaced, Outcome,
  refused, ended, uses_make, is_runtime, is_book, makefile_fault, command_of, early_fault,
  receipt_of, settle,
}

-- A Makefile that is an ordinary file of a bounded size and declares the target.
abbrev pub Declares : Operation → Option Makefile → Type 0
Declares op none = ⊥
Declares op (some m) = (m.is_link ≡ false) × (m.size ≤ 2_000_000) × (m.declares op ≡ true)

-- What the project must have for the operation.
abbrev pub Prepared : Operation → Project → Type 0
Prepared build p = Declares build p.makefile
Prepared check p = Declares check p.makefile
Prepared http_check p = Declares http_check p.makefile
Prepared test p = Declares test p.makefile
Prepared runtime p = p.has_contract ≡ true
Prepared go p = Unit
Prepared book p = p.book_escapes ≡ false
Prepared other p = ⊥

pub makefile_lem :
    (op : Operation) (m : Option Makefile) → makefile_fault op m ≡ none → Declares op m
unfolding makefile_fault
makefile_lem op none h = absurd cc
makefile_lem op (some m) h = ground (arith, h)

pub tests_lem :
    (bad link escapes : Bool)
    → (if bad
        then some no_contract
        else if link
        then some cache_link
        else if escapes
        then some escaping_book
        else none)
      ≡ none
    → (bad ≡ false) × (link ≡ false) × (escapes ≡ false)
tests_lem bad link escapes h = ground arith

-- The two parts of `early_fault`.
pub early_parts :
    (fault : Option Reason) (rest : Option Reason)
    → elim fault [ some why ↦ some why | none ↦ rest ] ≡ none
    → (fault ≡ none) × (rest ≡ none)
early_parts none rest h = (refl, h)
early_parts (some why) rest h = absurd cc

pub early_lem :
    (p : Project) (op : Operation) (command : List String)
    → early_fault p op ≡ none
    → command_of p op ≡ some command
    → (p.cache_is_link ≡ false) × Prepared op p
unfolding early_fault command_of
early_lem p op command h known =
    let (no_fault, rest) =
      early_parts
        (if p.is_application && p.source_is_link
          then some source_link
          else if uses_make op
          then makefile_fault op p.makefile
          else none)
        _ h in
    let fault =
      unlinked (p.is_application && p.source_is_link)
        (if uses_make op then makefile_fault op p.makefile else none) no_fault in
    let (contract, cache, escapes) =
      tests_lem (is_runtime op && not p.has_contract) p.cache_is_link (is_book op && p.book_escapes)
        rest in
    (cache, prepared op fault contract escapes known)
  where
    unlinked :
        (b : Bool) (o : Option Reason) → (if b then some source_link else o) ≡ none → o ≡ none
    unlinked b o h = ground arith

    prepared :
        (o : Operation)
        → (if uses_make o then makefile_fault o p.makefile else none) ≡ none
        → (is_runtime o && not p.has_contract) ≡ false
        → (is_book o && p.book_escapes) ≡ false
        → command_of p o ≡ some command
        → Prepared o p
    prepared build f c e k = makefile_lem build p.makefile f
    prepared check f c e k = makefile_lem check p.makefile f
    prepared http_check f c e k = makefile_lem http_check p.makefile f
    prepared test f c e k = makefile_lem test p.makefile f
    prepared runtime f c e k = ground (arith, c)
    prepared go f c e k = tt
    prepared book f c e k = e
    prepared other f c e k = absurd cc

pub execute_parts :
    (link replaced : Bool) (command ran : List String) (code : ℕ) (receipt : Option Receipt)
    (x : Outcome)
    → (if link
        then refused none log_link
        else if replaced
        then refused (some command) log_replaced
        else x)
      ≡ ended ran code receipt
    → (link ≡ false) × (replaced ≡ false) × (x ≡ ended ran code receipt)
execute_parts link replaced command ran code receipt x h = ground arith

pub ended_parts :
    (c ran : List String) (k code : ℕ) (r receipt : Option Receipt)
    → ended c k r ≡ ended ran code receipt
    → (c ≡ ran) × (k ≡ code) × (r ≡ receipt)
ended_parts c ran k code r receipt h = (cc, cc, cc)

pub settle_lem :
    (c ran : List String) (k code : ℕ) (o receipt : Option Receipt)
    → settle c k o ≡ ended ran code receipt
    → (c ≡ ran) × (k ≡ code) × (o ≡ receipt)
settle_lem c ran k code none receipt h = absurd cc
settle_lem c ran k code (some r) receipt h = ended_parts c ran k code (some r) receipt h

-- The command of each operation: make with the operation's own target in the directory of the
-- sources, Go's tests, the probe of LeanFM, and the make of the book.
abbrev pub RunsMake : String → Project → List String → Type 0
RunsMake target p ran =
    ran
    ≡ "/usr/bin/make" ∷ "-C" ∷ (if p.is_application then "/work/source" else "/work") ∷ target ∷ []

abbrev pub RunsOwn : Operation → Project → List String → Type 0
RunsOwn build p ran = RunsMake "build" p ran
RunsOwn check p ran = RunsMake "check" p ran
RunsOwn http_check p ran = RunsMake "http-check" p ran
RunsOwn test p ran = RunsMake "test" p ran
RunsOwn runtime p ran =
    ran ≡ "/usr/bin/python3" ∷ "/runtime/chatui_runtime.py" ∷ "probe" ∷ "/work" ∷ []
RunsOwn go p ran =
    ran
    ≡ "/go/bin/go"
      ∷ "-C"
      ∷ (if p.has_go_module then "/work/source" else "/work")
      ∷ "test"
      ∷ "./..."
      ∷ []
RunsOwn book p ran = ran ≡ "/usr/bin/make" ∷ "-C" ∷ "/work/book" ∷ []
RunsOwn other p ran = ⊥

pub command-RunsOwn :
    (p : Project) (op : Operation) (ran : List String)
    → command_of p op ≡ some ran
    → RunsOwn op p ran
unfolding command_of
command-RunsOwn p build ran h = sym (some-injective h)
command-RunsOwn p check ran h = sym (some-injective h)
command-RunsOwn p http_check ran h = sym (some-injective h)
command-RunsOwn p test ran h = sym (some-injective h)
command-RunsOwn p runtime ran h = sym (some-injective h)
command-RunsOwn p go ran h = sym (some-injective h)
command-RunsOwn p book ran h = sym (some-injective h)
command-RunsOwn p other ran h = absurd cc

-- What `execute` records.
abbrev pub Matches : Project → Operation → ℕ → Option Receipt → Type 0
Matches p runtime code receipt = receipt_of p code ≡ receipt
Matches p op code receipt = receipt ≡ none

pub plain_lem :
    (p : Project) (c ran : List String) (code : ℕ) (receipt : Option Receipt)
    → ended c (p.exit_code c) none ≡ ended ran code receipt
    → (c ≡ ran) × (p.exit_code c ≡ code) × (receipt ≡ none)
plain_lem p c ran code receipt h =
    let (same, is_code, is_receipt) = ended_parts c ran (p.exit_code c) code none receipt h in
    (same, is_code, sym is_receipt)

pub branch_lem :
    (p : Project) (op : Operation) (c ran : List String) (code : ℕ) (receipt : Option Receipt)
    → (if is_runtime op
        then settle c (p.exit_code c) (receipt_of p (p.exit_code c))
        else ended c (p.exit_code c) none)
      ≡ ended ran code receipt
    → (c ≡ ran) × (p.exit_code c ≡ code) × Matches p op code receipt
branch_lem p runtime c ran code receipt h =
    let (same, is_code, is_receipt) =
      settle_lem c ran (p.exit_code c) code (receipt_of p (p.exit_code c)) receipt h in
    (same, is_code, ap (receipt_of p) (sym is_code) ∙ is_receipt)
branch_lem p build c ran code receipt h = plain_lem p c ran code receipt h
branch_lem p check c ran code receipt h = plain_lem p c ran code receipt h
branch_lem p http_check c ran code receipt h = plain_lem p c ran code receipt h
branch_lem p test c ran code receipt h = plain_lem p c ran code receipt h
branch_lem p go c ran code receipt h = plain_lem p c ran code receipt h
branch_lem p book c ran code receipt h = plain_lem p c ran code receipt h
branch_lem p other c ran code receipt h = plain_lem p c ran code receipt h
