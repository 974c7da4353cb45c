-- ===== src/Application/Resources.antt =====
-- `check_resources`.
use lean_fm.Common.{
  ℕ, zero, suc, ◌+◌, Bool, true, false, not, ◌||◌, ◌&&◌, Option, List, [], ◌∷◌, if◌then◌else◌, ltb,
  eqb, length, sum_by, get_or,
}

-- An entry of `processes`: its number, its parent's number and its resident bytes.
pub record Process : Type 0 where
  pub number : ℕ
  pub parent : ℕ
  pub memory : ℕ

-- `number in owned`
unfoldable pub contains : ℕ → List ℕ → Bool
contains n [] = false
contains n (m ∷ owned) = eqb m n || contains n owned

-- `found`
unfoldable pub children_of : List ℕ → List Process → List ℕ
unfolding contains
children_of owned [] = []
children_of owned (p ∷ processes) =
    let rest = children_of owned processes in
    if contains p.parent owned then p.number ∷ rest else rest

-- `found.issubset(owned)`
unfoldable pub is_subset : List ℕ → List ℕ → Bool
unfolding contains
is_subset [] owned = true
is_subset (n ∷ found) owned = contains n owned && is_subset found owned

-- `owned.update(found)`
unfoldable pub update : List ℕ → List ℕ → List ℕ
unfolding contains
update [] owned = owned
update (n ∷ found) owned =
    let rest = update found owned in if contains n rest then rest else n ∷ rest

-- The loop over `owned`, on fuel.
unfoldable pub collect : ℕ → List Process → List ℕ → List ℕ
unfolding children_of is_subset update
collect zero processes owned = owned
collect (suc fuel) processes owned =
    let found = children_of owned processes in
    let more = collect fuel processes (update found owned) in
    if is_subset found owned then owned else more

-- One pass for each process is enough.
unfoldable pub owned_by : ℕ → List Process → List ℕ
unfolding collect
owned_by pid processes = collect (length processes) processes (pid ∷ [])

abbrev pub memory_of : List Process → ℕ → ℕ
memory_of [] n = 0
memory_of (p ∷ processes) n = if eqb p.number n then p.memory else memory_of processes n

abbrev pub max_bytes : ℕ
max_bytes = 536_870_912

unfoldable pub is_over_budget : ℕ → List Process → Bool
unfolding owned_by
is_over_budget pid processes =
    let owned = owned_by pid processes in
    ltb 256 (length owned) || ltb max_bytes (sum_by (memory_of processes) owned)

-- The walk over the cache: the size of each entry, none where it has gone.
unfoldable pub cache_is_over : ℕ → ℕ → List (Option ℕ) → Bool
cache_is_over total entries [] = false
cache_is_over total entries (size ∷ rest) =
    let larger = total + get_or size 0 in
    let more = cache_is_over larger (suc entries) rest in
    if ltb max_bytes larger || ltb 10_000 (suc entries) then true else more

-- Whether `check_resources` returns.
unfoldable pub check_resources : ℕ → List Process → List (Option ℕ) → Bool
unfolding is_over_budget cache_is_over
check_resources pid processes cache =
    if is_over_budget pid processes then false else not (cache_is_over 0 0 cache)
