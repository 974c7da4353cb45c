-- ===== src/Sandbox/Receipts.antt =====
-- What a check of the command runner leaves.
use lean_fm.Common.{
  ℕ, String, Bool, true, false, not, ◌||◌, Option, none, some, List, ◌≡◌, ◌≢◌, refl, sym, ap, ◌∙◌,
  arith, if◌then◌else◌, ◌==◌, eq_iff, eqb, eqb_iff, some-injective, [], ◌∷◌, ◌⊎◌, inl, inr, get_or,
}
use lean_fm.Sandbox.Checks.{
  Operation, runtime, build, check, http_check, test, go, book, other, settle, Project, Observed,
  Reason, Receipt, refused, ended, command_of, early_fault, failed_receipt, receipt_of,
  runtime_receipt, update, execute, main,
}
use lean_fm.Sandbox.Prepared.{execute_parts, ended_parts, Matches}

-- A receipt of a failed probe names its exit code and the inputs from before the run. One of a probe
-- that succeeded has what the probe found, of inputs that the run left as they were.
abbrev pub IsReceipt : Project → ℕ → Receipt → Type 0
IsReceipt p code r =
    ((code ≢ 0) × (r.status ≡ "failed") × (r.revision ≡ p.revision_before) × (r.exit_code ≡ code))
    ⊎ ((code ≡ 0)
        × (r.status ≡ "validated")
        × (p.revision_after ≡ p.revision_before)
        × (r.exit_code ≡ 0)
        × (o : Observed) × (p.observed ≡ some o)
        × (o.status ≡ "validated")
        × (r.revision ≡ get_or o.revision p.revision_before))

runtime-IsReceipt :
    (p : Project) (code : ℕ) (found : Option Observed) (r : Receipt)
    → p.observed ≡ found
    → code ≡ 0
    → runtime_receipt p code found ≡ some r
    → IsReceipt p code r
runtime-IsReceipt p code none r f e h = absurd cc
runtime-IsReceipt p code (some o) r f e h =
    let (valid, kept, same) =
      tests_lem (o.status == "validated") (p.revision_after == p.revision_before)
        (update (failed_receipt p code) o) h in
    let text : o.status ≡ "validated" = (eq_iff o.status "validated").0 valid in
    inr (
      e,
      ap Receipt.status (sym same) ∙ text,
      (eq_iff p.revision_after p.revision_before).0 kept,
      ap Receipt.exit_code (sym same) ∙ e,
      o,
      f,
      text,
      ap Receipt.revision (sym same),
    )
  where
    tests_lem :
        (valid kept : Bool) (x : Receipt)
        → (if not valid || not kept then none else some x) ≡ some r
        → (valid ≡ true) × (kept ≡ true) × (x ≡ r)
    tests_lem valid kept x h = ground arith

receipt-IsReceipt :
    (p : Project) (code : ℕ) (r : Receipt) → receipt_of p code ≡ some r → IsReceipt p code r
unfolding receipt_of
receipt-IsReceipt p code r h = go (eqb code 0) refl h
  where
    go :
        (b : Bool)
        → eqb code 0 ≡ b
        → (if b then runtime_receipt p code p.observed else some (failed_receipt p code)) ≡ some r
        → IsReceipt p code r
    go true e h = runtime-IsReceipt p code p.observed r refl ((eqb_iff code 0).0 e) h
    go false e h =
        let same : failed_receipt p code ≡ r = some-injective h in
        inl (
          ground (arith, e),
          ap Receipt.status (sym same),
          ap Receipt.revision (sym same),
          ap Receipt.exit_code (sym same),
        )

settle-leaves :
    (c ran : List String) (k code : ℕ) (o receipt : Option Receipt)
    → settle c k o ≡ ended ran code receipt
    → (r : Receipt) × (receipt ≡ some r)
settle-leaves c ran k code none receipt h = absurd cc
settle-leaves c ran k code (some r) receipt h =
    let (same, number, left) = ended_parts c ran k code (some r) receipt h in (r, sym left)

-- A runtime check that ends leaves a receipt.
runtime_leaves :
    (p : Project) (ran : List String) (code : ℕ) (receipt : Option Receipt)
    → main p runtime ≡ ended ran code receipt
    → (r : Receipt) × (receipt ≡ some r)
unfolding main execute command_of
runtime_leaves p ran code receipt h = go (early_fault p runtime) h
  where
    command : List String
    command = "/usr/bin/python3" ∷ "/runtime/chatui_runtime.py" ∷ "probe" ∷ "/work" ∷ []

    go :
        (fault : Option Reason)
        → elim fault [ some why ↦ refused none why | none ↦ execute p runtime command ]
          ≡ ended ran code receipt
        → (r : Receipt) × (receipt ≡ some r)
    go (some why) h = absurd cc
    go none h =
        let (link, replaced, rest) =
          execute_parts p.log_is_link p.log_was_replaced command ran code receipt _ h in
        settle-leaves command ran (p.exit_code command) code (receipt_of p (p.exit_code command))
          receipt rest

-- What a run leaves: a receipt of a runtime check, none of any other.
abbrev pub Records : Operation → Project → ℕ → Option Receipt → Type 0
Records runtime p code receipt = (r : Receipt) × (receipt ≡ some r) × IsReceipt p code r
Records op p code receipt = receipt ≡ none

pub receipt-Records :
    (p : Project) (op : Operation) (ran : List String) (code : ℕ) (receipt : Option Receipt)
    → main p op ≡ ended ran code receipt
    → Matches p op code receipt
    → Records op p code receipt
receipt-Records p runtime ran code receipt h m =
    let (r, same) = runtime_leaves p ran code receipt h in
    (r, same, receipt-IsReceipt p code r (m ∙ same))
receipt-Records p build ran code receipt h m = m
receipt-Records p check ran code receipt h m = m
receipt-Records p http_check ran code receipt h m = m
receipt-Records p test ran code receipt h m = m
receipt-Records p go ran code receipt h m = m
receipt-Records p book ran code receipt h m = m
receipt-Records p other ran code receipt h m = m
