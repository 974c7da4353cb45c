-- ===== src/Workspace/Fresh.antt =====
-- What `reserve` makes.
use lean_fm.Common.{
  ℕ, zero, suc, ◌+◌, ◌≤◌, ◌<◌, String, ◌≡◌, refl, Bool, true, false, not, ◌&&◌, Option, none, some,
  [], ◌∷◌, ◌++◌, if◌then◌else◌, arith, Bool-cases, inl, inr, is_some, eqb, eqb_iff, sym, subst,
}
use lean_fm.Workspace.Names.{valid_identity, candidate, stem_of}
use lean_fm.Workspace.Projects.{Base, is_base}
use lean_fm.Workspace.Reserve.{
  new_child, is_taken, is_project, is_free, make, try_names, max_ordinal, reserve,
}

module _ (is_alnum : ℕ → Bool) (b : Base) where
  try_names-IsFree :
      (stem : String) (left ordinal : ℕ) (b' : Base) (identity : String)
      → try_names is_alnum b stem left ordinal ≡ some (b', identity)
      → (is_free is_alnum b identity ≡ true) × (b' ≡ (make b identity).0)
  unfolding try_names
  try_names-IsFree stem zero ordinal b' identity e = cc
  try_names-IsFree stem (suc left) ordinal b' identity e =
      elim (Bool-cases (is_free is_alnum b (candidate stem ordinal))) [
        | inl free ↦ ground arith
        | inr used ↦ try_names-IsFree stem left (ordinal + 1) b' identity (ground arith)
      ]

  try_names-finds :
      (stem : String) (left ordinal n : ℕ)
      → ordinal ≤ n
      → n < ordinal + left
      → is_free is_alnum b (candidate stem n) ≡ true
      → is_some (try_names is_alnum b stem left ordinal) ≡ true
  unfolding try_names
  try_names-finds stem zero ordinal n low high free = absurd (omega arith)
  try_names-finds stem (suc left) ordinal n low high free =
      elim (Bool-cases (is_free is_alnum b (candidate stem ordinal))) [
        | inl now ↦ rw now refl
        | inr used ↦
            rw used (try_names-finds stem left (ordinal + 1) n (later used) (omega arith) free)
      ]
    where
      later : is_free is_alnum b (candidate stem ordinal) ≡ false → ordinal + 1 ≤ n
      later used = elim (Bool-cases (eqb ordinal n)) [
        | inl same ↦ let eq : ordinal ≡ n = (eqb_iff ordinal n).0 same in cc
        | inr other ↦ ground arith
      ]

is_free-parts :
    (is_alnum : ℕ → Bool) (b : Base) (name : String)
    → is_free is_alnum b name ≡ true
    → (valid_identity is_alnum name ≡ true)
      × (is_project is_alnum b name ≡ false)
      × (is_taken b name ≡ false)
unfolding is_free
is_free-parts is_alnum b name h =
    parts (valid_identity is_alnum name) (is_project is_alnum b name) (is_taken b name) h
  where
    parts : (x y z : Bool) → (x && not y && not z) ≡ true → (x ≡ true) × (y ≡ false) × (z ≡ false)
    parts x y z h = ground arith

guarded :
    {A : Type 0} (c : Bool) (o : Option A) (a : A) → (if c then o else none) ≡ some a → o ≡ some a
guarded true o a h = h
guarded false o a h = absurd cc

reserve-try_names :
    (is_alnum : ℕ → Bool) (b b' : Base) (name identity : String)
    → reserve is_alnum b name ≡ some (b', identity)
    → try_names is_alnum b (stem_of name) max_ordinal 1 ≡ some (b', identity)
unfolding reserve
reserve-try_names is_alnum b b' name identity e =
    guarded (is_base b) (try_names is_alnum b (stem_of name) max_ordinal 1) (b', identity) e

-- A reservation that returns gives a valid identity that no project has and no entry under
-- projects/ bears, makes exactly that directory, and leaves every other entry as it was.
pub reserve_fresh :
    (is_alnum : ℕ → Bool) (b b' : Base) (name identity : String)
    → reserve is_alnum b name ≡ some (b', identity)
    → (valid_identity is_alnum identity ≡ true)
      × (is_project is_alnum b identity ≡ false)
      × (is_taken b identity ≡ false)
      × (b'.children ≡ b.children ++ new_child identity ∷ [])
reserve_fresh is_alnum b b' name identity e =
    let (free, made) =
      try_names-IsFree is_alnum b (stem_of name) max_ordinal 1 b' identity
        (reserve-try_names is_alnum b b' name identity e) in
    let (valid, new, unused) = is_free-parts is_alnum b identity free in
    (valid, new, unused, cc made)

-- A reservation returns as long as any of the ten thousand names that it tries is free.
pub reserve_finds :
    (is_alnum : ℕ → Bool) (b : Base) (name : String) (n : ℕ)
    → is_base b ≡ true
    → 1 ≤ n
    → n ≤ 10000
    → is_free is_alnum b (candidate (stem_of name) n) ≡ true
    → is_some (reserve is_alnum b name) ≡ true
unfolding reserve
reserve_finds is_alnum b name n base low high free =
    subst
      (λ c. is_some (if c then try_names is_alnum b (stem_of name) max_ordinal 1 else none) ≡ true)
      (sym base) (try_names-finds is_alnum b (stem_of name) max_ordinal 1 n low (omega arith) free)
