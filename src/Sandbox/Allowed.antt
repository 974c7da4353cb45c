-- ===== src/Sandbox/Allowed.antt =====
-- What the command runner runs, and what it records.
use lean_fm.Common.{
  ℕ, String, Bool, true, false, not, ◌||◌, Option, none, some, List, ◌≡◌, ◌≢◌, refl, sym, ap, ◌∙◌,
  arith, if◌then◌else◌, ◌==◌, eq_iff, eqb, eqb_iff, some-injective,
}
use lean_fm.Sandbox.Checks.{
  Operation, runtime, Project, Observed, Reason, Receipt, unknown_check, refused, ended, command_of,
  early_fault, failed_receipt, receipt_of, runtime_receipt, update, execute, main,
}
use lean_fm.Sandbox.Prepared.{
  Prepared, early_lem, execute_parts, Matches, branch_lem, RunsOwn, command-RunsOwn,
}
use lean_fm.Sandbox.Receipts.{Records, receipt-Records}

pub main_parts :
    (p : Project) (op : Operation) (ran : List String) (code : ℕ) (receipt : Option Receipt)
    → main p op ≡ ended ran code receipt
    → (command_of p op ≡ some ran)
      × (p.exit_code ran ≡ code)
      × (p.cache_is_link ≡ false)
      × (p.log_is_link ≡ false)
      × (p.log_was_replaced ≡ false)
      × Prepared op p
      × Matches p op code receipt
unfolding main execute
main_parts p op ran code receipt h = go (early_fault p op) (command_of p op) refl refl h
  where
    Answer : Type 0
    Answer =
        (command_of p op ≡ some ran)
        × (p.exit_code ran ≡ code)
        × (p.cache_is_link ≡ false)
        × (p.log_is_link ≡ false)
        × (p.log_was_replaced ≡ false)
        × Prepared op p
        × Matches p op code receipt

    go :
        (fault : Option Reason) (found : Option (List String))
        → early_fault p op ≡ fault
        → command_of p op ≡ found
        → elim fault [
          | some why ↦ refused none why
          | none ↦ elim found [
            | none ↦ refused none unknown_check
            | some command ↦ execute p op command
          ]
        ]
          ≡ ended ran code receipt
        → Answer
    go (some why) found f c h = absurd cc
    go none none f c h = absurd cc
    go none (some command) f c h =
        let (link, replaced, rest) =
          execute_parts p.log_is_link p.log_was_replaced command ran code receipt _ h in
        let (same, is_code, matches) = branch_lem p op command ran code receipt rest in
        let (cache, prepared) = early_lem p op command f c in
        (
          c ∙ ap some same,
          ap p.exit_code (sym same) ∙ is_code,
          cache,
          link,
          replaced,
          prepared,
          matches,
        )

validated_lem :
    (p : Project) (code : ℕ) (o : Option Observed) (r : Receipt)
    → runtime_receipt p code o ≡ some r
    → p.revision_after ≡ p.revision_before
validated_lem p code none r h = absurd cc
validated_lem p code (some o) r h =
    (eq_iff p.revision_after p.revision_before).0 (same_lem (o.status == "validated") _ h)
  where
    same_lem :
        (valid same : Bool)
        → (if not valid || not same then none else some (update (failed_receipt p code) o)) ≡ some r
        → same ≡ true
    same_lem valid same h = ground arith

-- A check that is run to its end is one of the seven that are known, run by its own command (make
-- with its own target, Go's tests, the probe, or the book's make), in a project that has what it
-- needs (an ordinary bounded Makefile that declares the target, a valid contract, a book of its
-- own), with no link as its cache or its log. Only the runtime check leaves a receipt: "failed" with
-- the exit code and the inputs from before where its probe failed, else "validated", and then the
-- probe said so and the inputs are unchanged.
pub main_requires :
    (p : Project) (op : Operation) (ran : List String) (code : ℕ) (receipt : Option Receipt)
    → main p op ≡ ended ran code receipt
    → RunsOwn op p ran
      × (p.exit_code ran ≡ code)
      × (p.cache_is_link ≡ false)
      × (p.log_is_link ≡ false)
      × (p.log_was_replaced ≡ false)
      × Prepared op p
      × Records op p code receipt
main_requires p op ran code receipt h =
    let (known, is_code, cache, link, replaced, prepared, matches) =
      main_parts p op ran code receipt h in
    (
      command-RunsOwn p op ran known,
      is_code,
      cache,
      link,
      replaced,
      prepared,
      receipt-Records p op ran code receipt h matches,
    )

failed_text : ◌≢◌ {A = String} "failed" "validated"
failed_text e =
    let same : ("failed" == "validated") ≡ true = (eq_iff "failed" "validated").1 e in cc

receipt_lem :
    (p : Project) (code : ℕ) (r : Receipt)
    → receipt_of p code ≡ some r
    → r.status ≡ "validated"
    → (code ≡ 0) × (p.revision_after ≡ p.revision_before)
unfolding receipt_of
receipt_lem p code r h valid = go (eqb code 0) refl h
  where
    go :
        (b : Bool)
        → eqb code 0 ≡ b
        → (if b then runtime_receipt p code p.observed else some (failed_receipt p code)) ≡ some r
        → (code ≡ 0) × (p.revision_after ≡ p.revision_before)
    go true e h = ((eqb_iff code 0).0 e, validated_lem p code p.observed r h)
    go false e h =
        let same : failed_receipt p code ≡ r = some-injective h in
        absurd (failed_text (ap Receipt.status same ∙ valid))

-- A runtime check leaves a receipt that says "validated" only if its probe succeeded and the
-- inputs are those that were there before it ran, under a valid contract.
pub validated_requires :
    (p : Project) (ran : List String) (code : ℕ) (r : Receipt)
    → main p runtime ≡ ended ran code (some r)
    → r.status ≡ "validated"
    → (code ≡ 0) × (p.revision_after ≡ p.revision_before) × (p.has_contract ≡ true)
validated_requires p ran code r h valid =
    let (known, is_code, cache, link, replaced, prepared, matches) =
      main_parts p runtime ran code (some r) h in
    let (zero_code, same) = receipt_lem p code r matches valid in (zero_code, same, prepared)
