-- ===== src/Application/Descendants.antt =====
-- The processes that `check_resources` counts, and the cache that it accepts.
use lean_fm.Common.{
  ℕ, zero, suc, ◌≤◌, ◌≡◌, refl, subst, ◌↔◌, inl, inr, Bool, true, false, List, [], ◌∷◌,
  if◌then◌else◌, eqb_iff, length, arith, Bool-cases,
}
use mathlib.Core.List.{Memᴰ}
use lean_fm.Application.Resources.{
  Process, contains, children_of, is_subset, update, collect, owned_by,
}
use lean_fm.Application.Missing.{
  contains-update, contains-is_subset, found_lem, child_found, missing, missing-length,
  missing-found,
}

-- The process `pid` and the processes that descend from it.
pub data Descends (pid : ℕ) (processes : List Process) : ℕ → Type 0 where
  itself : Descends pid processes pid
  child :
      (p : Process)
      → Memᴰ p processes
      → Descends pid processes p.parent
      → Descends pid processes p.number

abbrev IsClosed : List Process → List ℕ → Type 0
IsClosed processes owned = is_subset (children_of owned processes) owned ≡ true

-- Fuel for each missing process is enough.
collect-IsClosed :
    (fuel : ℕ) (processes : List Process) (owned : List ℕ)
    → missing owned processes ≤ fuel
    → IsClosed processes (collect fuel processes owned)
unfolding collect
collect-IsClosed zero processes owned h =
    elim (Bool-cases (is_subset (children_of owned processes) owned)) [
      | inl c ↦ c
      | inr c ↦ absurd (omega (arith, h, missing-found owned processes c))
    ]
collect-IsClosed (suc fuel) processes owned h =
    go (is_subset (children_of owned processes) owned) refl
      (λ less. collect-IsClosed fuel processes (update (children_of owned processes) owned) less)
  where
    go :
        (b : Bool)
        → is_subset (children_of owned processes) owned ≡ b
        → (missing (update (children_of owned processes) owned) processes ≤ fuel
            → IsClosed processes
                (collect fuel processes (update (children_of owned processes) owned)))
        → IsClosed processes (
            if b
            then owned
            else collect fuel processes (update (children_of owned processes) owned))
    go true e later = e
    go false e later = later (omega (arith, h, missing-found owned processes e))

-- What holds of the owned processes throughout: all descend from `pid`.
abbrev AllDescend : ℕ → List Process → List ℕ → Type 0
AllDescend pid processes owned = (n : ℕ) → contains n owned ≡ true → Descends pid processes n

pass-AllDescend :
    (pid : ℕ) (processes : List Process) (owned : List ℕ)
    → AllDescend pid processes owned
    → AllDescend pid processes (update (children_of owned processes) owned)
pass-AllDescend pid processes owned h n c =
    elim (Bool-cases (contains n (children_of owned processes))) [
      | inl f ↦
          (let (p, m, same, owns) = found_lem n owned processes f in
            subst (Descends pid processes) same (child p m (h p.parent owns)))
      | inr f ↦ h n (ground (arith, contains-update n (children_of owned processes) owned, c, f))
    ]

collect-AllDescend :
    (fuel pid : ℕ) (processes : List Process) (owned : List ℕ)
    → AllDescend pid processes owned
    → AllDescend pid processes (collect fuel processes owned)
unfolding collect
collect-AllDescend zero pid processes owned h = h
collect-AllDescend (suc fuel) pid processes owned h =
    go (is_subset (children_of owned processes) owned)
      (collect-AllDescend fuel pid processes _ (pass-AllDescend pid processes owned h))
  where
    go :
        (b : Bool)
        → AllDescend pid processes
            (collect fuel processes (update (children_of owned processes) owned))
        → AllDescend pid processes (
            if b
            then owned
            else collect fuel processes (update (children_of owned processes) owned))
    go true later = h
    go false later = later

collect_keeps :
    (fuel n : ℕ) (processes : List Process) (owned : List ℕ)
    → contains n owned ≡ true
    → contains n (collect fuel processes owned) ≡ true
unfolding collect
collect_keeps zero n processes owned h = h
collect_keeps (suc fuel) n processes owned h =
    let later =
      collect_keeps fuel n processes (update (children_of owned processes) owned)
        (ground (arith, h, contains-update n (children_of owned processes) owned)) in
    ground (arith, h, later)

closed_lem :
    (pid : ℕ) (processes : List Process) (owned : List ℕ)
    → IsClosed processes owned
    → contains pid owned ≡ true
    → (n : ℕ) → Descends pid processes n
    → contains n owned ≡ true
closed_lem pid processes owned c h _ itself = h
closed_lem pid processes owned c h _ (child p m d) =
    contains-is_subset p.number (children_of owned processes) owned c
      (child_found owned processes p m (closed_lem pid processes owned c h p.parent d))

-- The loop ends, and the processes whose memory is counted are the given one and exactly those
-- that descend from it, in whatever order the system lists them.
pub owned_by_iff :
    (pid : ℕ) (processes : List Process) (n : ℕ)
    → (contains n (owned_by pid processes) ≡ true) ↔ Descends pid processes n
unfolding owned_by contains
owned_by_iff pid processes n = (
  collect-AllDescend (length processes) pid processes (pid ∷ [])
      (λ k h. subst (Descends pid processes) ((eqb_iff pid k).0 (ground (arith, h))) itself) n,
  closed_lem pid processes (collect (length processes) processes (pid ∷ []))
      (collect-IsClosed _ processes (pid ∷ []) (missing-length (pid ∷ []) processes))
      (collect_keeps (length processes) pid processes (pid ∷ []) (ground (arith, eqb_iff pid pid)))
      n,
)
