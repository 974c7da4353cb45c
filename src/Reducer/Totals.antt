-- ===== src/Reducer/Totals.antt =====
-- The daily counters against the totals.
use lean_fm.Common.{
  ℕ, ◌+◌, ◌/◌, String, ◌≡◌, refl, ap, Bool, true, false, some, List, [], ◌∷◌, eqb, if◌then◌else◌,
  ◌==◌, eq_iff, get_or, sum_by, arith, Bool-cases, inl, inr, length,
}
use lean_fm.Common.Table.{lookup, insert, lookup-insert}
use lean_fm.Reducer.Fold.{
  Event, Bucket, no_bucket, Stats, no_stats, counted, only_if, add_event, add_daily, add, reduce,
}

-- A counter of a bucket, with what an event adds to it.
record Counter : Type 0 where
  value : Bucket → ℕ
  gain : Event → ℕ
  at_start : value no_bucket ≡ 0
  on_event : (e : Event) (b : Bucket) → value (add_event e b) ≡ value b + gain e

abbrev total : Counter → List (ℕ × Bucket) → ℕ
total c = sum_by (λ (row : ℕ × Bucket). c.value row.1)

module _ (c : Counter) where
  total-add_daily :
      (day : ℕ) (e : Event) (rows : List (ℕ × Bucket))
      → total c (add_daily day e rows) ≡ total c rows + c.gain e
  unfolding add_daily
  total-add_daily day e [] = omega (arith, c.on_event e no_bucket, c.at_start)
  total-add_daily day e ((d, b) ∷ rest) = elim (Bool-cases (eqb d day)) [
    | inl same ↦ rw same (omega (arith, c.on_event e b))
    | inr other ↦ rw other (omega (arith, total-add_daily day e rest))
  ]

  total-reduce :
      (events : List Event) (s : Stats)
      → total c (reduce events s).daily ≡ total c s.daily + sum_by c.gain events
  unfolding reduce add
  total-reduce [] s = omega arith
  total-reduce (e ∷ rest) s =
      omega (arith, total-reduce rest (add s e), total-add_daily (e.time_at / 86_400_000) e s.daily)

counted-add :
    (kind : String) (s : Stats) (e : Event)
    → counted kind (add s e).kinds ≡ counted kind s.kinds + only_if (e.kind == kind) 1
unfolding add
counted-add kind s e =
    hit (e.kind == kind) refl (lookup-insert e.kind kind (counted e.kind s.kinds + 1) s.kinds)
  where
    hit :
        (same : Bool)
        → (e.kind == kind) ≡ same
        → lookup kind (insert e.kind (counted e.kind s.kinds + 1) s.kinds)
          ≡ (if same then some (counted e.kind s.kinds + 1) else lookup kind s.kinds)
        → counted kind (insert e.kind (counted e.kind s.kinds + 1) s.kinds)
          ≡ counted kind s.kinds + only_if same 1
    hit true same found =
        let here : counted e.kind s.kinds ≡ counted kind s.kinds =
          ap (λ k. counted k s.kinds) ((eq_iff e.kind kind).0 same) in
        omega (arith, ap (λ o. get_or o 0) found, here)
    hit false other found = omega (arith, ap (λ o. get_or o 0) found)

counted-reduce :
    (kind : String) (events : List Event) (s : Stats)
    → counted kind (reduce events s).kinds
      ≡ counted kind s.kinds + sum_by (λ e. only_if (e.kind == kind) 1) events
unfolding reduce
counted-reduce kind [] s = omega arith
counted-reduce kind (e ∷ rest) s =
    omega (arith, counted-reduce kind rest (add s e), counted-add kind s e)

totals-reduce :
    (events : List Event) (s : Stats)
    → ((reduce events s).total_events ≡ s.total_events + length events)
      × ((reduce events s).total_bytes ≡ s.total_bytes + sum_by (λ e. e.bytes) events)
unfolding reduce add
totals-reduce [] s = omega arith
totals-reduce (e ∷ rest) s = omega (arith, totals-reduce rest (add s e))

counter :
    (value : Bucket → ℕ) (gain : Event → ℕ)
    → value no_bucket ≡ 0
    → ((e : Event) (b : Bucket) → value (add_event e b) ≡ value b + gain e)
    → (events : List Event)
    → sum_by (λ (row : ℕ × Bucket). value row.1) (reduce events no_stats).daily ≡ sum_by gain events
counter value gain zero_first step events = omega (
  arith,
  total-reduce (record { value = value; gain = gain; at_start = zero_first; on_event = step })
      events no_stats,
)

pub total_of : (Bucket → ℕ) → Stats → ℕ
total_of value s = sum_by (λ (row : ℕ × Bucket). value row.1) s.daily

sum_by-one : (events : List Event) → sum_by (λ (e : Event). 1) events ≡ length events
sum_by-one [] = refl
sum_by-one (e ∷ rest) = omega (arith, sum_by-one rest)

-- The daily counters of every input add up to its totals: the events and the bytes of all days to
-- those of all lines, the orders to the requests and the sales to the completions that the counter
-- of kinds holds; and no line is missed.
pub reduce_totals :
    (events : List Event)
    → let s = reduce events no_stats in
      (s.total_events ≡ length events)
      × (total_of (λ b. b.events) s ≡ s.total_events)
      × (total_of (λ b. b.bytes) s ≡ s.total_bytes)
      × (total_of (λ b. b.orders) s ≡ counted "PurchaseRequested" s.kinds)
      × (total_of (λ b. b.sold) s ≡ counted "SaleCompleted" s.kinds)
unfolding total_of add_event lookup
reduce_totals events =
    let (lines, bytes) = totals-reduce events no_stats in
    let requests = counted-reduce "PurchaseRequested" events no_stats in
    let sales = counted-reduce "SaleCompleted" events no_stats in
    let c₁ = counter (λ b. b.events) (λ e. 1) refl (λ e b. refl) events in
    let c₂ = counter (λ b. b.bytes) (λ e. e.bytes) refl (λ e b. refl) events in
    let c₃ =
      counter (λ b. b.orders) (λ e. only_if (e.kind == "PurchaseRequested") 1) refl (λ e b. refl)
        events in
    let c₄ =
      counter (λ b. b.sold) (λ e. only_if (e.kind == "SaleCompleted") 1) refl (λ e b. refl)
        events in
    let start : (counted "PurchaseRequested" [] ≡ 0) × (counted "SaleCompleted" [] ≡ 0) =
      (refl, refl) in
    (
      omega (arith, lines),
      omega (arith, c₁, lines, sum_by-one events),
      omega (arith, c₂, bytes),
      omega (arith, c₃, requests, start.0),
      omega (arith, c₄, sales, start.1),
    )
