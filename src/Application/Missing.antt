-- ===== src/Application/Missing.antt =====
-- The processes that `check_resources` has still to find.
use lean_fm.Common.{
  ℕ, suc, ◌≤◌, ◌<◌, ◌≡◌, refl, sym, subst, inl, inr, Bool, true, false, ◌||◌, List, [], ◌∷◌,
  if◌then◌else◌, eqb, eqb_iff, length, arith, Bool-cases,
}
use mathlib.Core.List.{Memᴰ}
use lean_fm.Application.Resources.{Process, contains, children_of, is_subset, update}

pub contains-update :
    (n : ℕ) (found owned : List ℕ)
    → contains n (update found owned) ≡ (contains n found || contains n owned)
unfolding contains update
contains-update n [] owned = refl
contains-update n (m ∷ found) owned =
    go (contains m (update found owned)) (contains-update n found owned) refl
  where
    go :
        (b : Bool)
        → contains n (update found owned) ≡ (contains n found || contains n owned)
        → contains m (update found owned) ≡ b
        → contains n (if b then update found owned else m ∷ update found owned)
          ≡ ((eqb m n || contains n found) || contains n owned)
    go true later e = grind (arith, eqb_iff m n)
    go false later e = ground (arith, later)

pub contains-is_subset :
    (n : ℕ) (found owned : List ℕ)
    → is_subset found owned ≡ true
    → contains n found ≡ true
    → contains n owned ≡ true
unfolding is_subset contains
contains-is_subset n [] owned h c = absurd cc
contains-is_subset n (m ∷ found) owned h c =
    grind (arith, eqb_iff m n, contains-is_subset n found owned)

-- A child of the owned processes is one of the processes, with an owned parent.
pub found_lem :
    (n : ℕ) (owned : List ℕ) (processes : List Process)
    → contains n (children_of owned processes) ≡ true
    → (p : Process) × Memᴰ p processes × (p.number ≡ n) × (contains p.parent owned ≡ true)
unfolding children_of contains
found_lem n owned [] h = absurd cc
found_lem n owned (p ∷ processes) h =
    go (contains p.parent owned) refl (found_lem n owned processes) h
  where
    go :
        (b : Bool)
        → contains p.parent owned ≡ b
        → (contains n (children_of owned processes) ≡ true
            → (q : Process) × Memᴰ q processes × (q.number ≡ n) × (contains q.parent owned ≡ true))
        → contains n
            (if b then p.number ∷ children_of owned processes else children_of owned processes)
          ≡ true
        → (q : Process) × Memᴰ q (p ∷ processes) × (q.number ≡ n) × (contains q.parent owned ≡ true)
    go false e rest h = let (q, m, same, owns) = rest h in (q, Memᴰ.tail m, same, owns)
    go true e rest h = elim (Bool-cases (eqb p.number n)) [
      | inl same ↦ (p, Memᴰ.head refl, (eqb_iff p.number n).0 same, e)
      | inr other ↦
          let (q, m, same, owns) = rest (ground (arith, h, other)) in (q, Memᴰ.tail m, same, owns)
    ]

pub child_found :
    (owned : List ℕ) (processes : List Process) (p : Process)
    → Memᴰ p processes
    → contains p.parent owned ≡ true
    → contains p.number (children_of owned processes) ≡ true
unfolding children_of contains
child_found owned [] p m h = elim m [ ]
child_found owned (q ∷ processes) p (Memᴰ.head e) h =
    grind (arith, eqb_iff, child_found owned processes p)
child_found owned (q ∷ processes) p (Memᴰ.tail m) h =
    grind (arith, child_found owned processes p m h)

-- The number of processes that are not owned.
unfoldable pub missing : List ℕ → List Process → ℕ
unfolding contains
missing owned [] = 0
missing owned (p ∷ processes) =
    let rest = missing owned processes in if contains p.number owned then rest else suc rest

pub missing-length :
    (owned : List ℕ) (processes : List Process) → missing owned processes ≤ length processes
unfolding missing
missing-length owned [] = omega arith
missing-length owned (p ∷ processes) = ground (arith, missing-length owned processes)

pub missing_mono :
    (found owned : List ℕ) (processes : List Process)
    → missing (update found owned) processes ≤ missing owned processes
unfolding missing
missing_mono found owned [] = omega arith
missing_mono found owned (p ∷ processes) =
    ground (arith, missing_mono found owned processes, contains-update p.number found owned)

pub missing-less :
    (n : ℕ) (found owned : List ℕ) (processes : List Process) (p : Process)
    → Memᴰ p processes
    → contains p.number found ≡ true
    → contains p.number owned ≡ false
    → missing (update found owned) processes < missing owned processes
unfolding missing
missing-less n found owned [] p m f o = elim m [ ]
missing-less n found owned (q ∷ processes) p (Memᴰ.head e) f o =
    let f2 : contains q.number found ≡ true = subst (λ r. contains r.number found ≡ true) e f in
    let o2 : contains q.number owned ≡ false = subst (λ r. contains r.number owned ≡ false) e o in
    ground (arith, f2, o2, contains-update q.number found owned, missing_mono found owned processes)
missing-less n found owned (q ∷ processes) p (Memᴰ.tail m) f o =
    ground
      (arith, missing-less n found owned processes p m f o, contains-update q.number found owned)

-- An element that is missing, where a list is no subset.
pub not_subset :
    (found owned : List ℕ)
    → is_subset found owned ≡ false
    → (n : ℕ) × (contains n found ≡ true) × (contains n owned ≡ false)
unfolding is_subset contains
not_subset [] owned h = absurd cc
not_subset (n ∷ found) owned h = elim (Bool-cases (contains n owned)) [
  | inl c ↦
      (let (k, f, o) = not_subset found owned (ground (arith, h, c)) in (k, ground (arith, f), o))
  | inr c ↦ (n, ground (arith, eqb_iff n n), c)
]

-- Another pass adds a process, unless all is found.
pub missing-found :
    (owned : List ℕ) (processes : List Process)
    → is_subset (children_of owned processes) owned ≡ false
    → missing (update (children_of owned processes) owned) processes < missing owned processes
missing-found owned processes h =
    let (n, f, o) = not_subset (children_of owned processes) owned h in
    let (p, m, same, owns) = found_lem n owned processes f in
    missing-less n (children_of owned processes) owned processes p m
      (subst (λ k. contains k (children_of owned processes) ≡ true) (sym same) f)
      (subst (λ k. contains k owned ≡ false) (sym same) o)
