-- ===== src/Reducer/Concurrency.antt =====
-- The bound on the number of orders that are open at once.
use lean_fm.Common.{
  ℕ, ◌+◌, ◌-◌, ◌≤◌, max, ◌≡◌, refl, List, [], ◌∷◌, arith, Bool-cases, inl, inr, length, sum_by,
}
use lean_fm.Common.Table.{Table}
use lean_fm.Reducer.Fold.{Order, only_if, Event, reduce, no_stats}
use lean_fm.Reducer.Sweep.{Point, points, is_before, insert_point, sort_points, sweep, max_active}

abbrev starts_in : List Point → ℕ
starts_in = sum_by (λ (p : Point). only_if p.is_start 1)

starts_in-insert_point :
    (p : Point) (l : List Point) → starts_in (insert_point p l) ≡ only_if p.is_start 1 + starts_in l
unfolding insert_point
starts_in-insert_point p [] = refl
starts_in-insert_point p (q ∷ rest) = elim (Bool-cases (is_before p q)) [
  | inl first ↦ rw first (omega arith)
  | inr later ↦ rw later (omega (arith, starts_in-insert_point p rest))
]

starts_in-sort_points : (l : List Point) → starts_in (sort_points l) ≡ starts_in l
unfolding sort_points
starts_in-sort_points [] = refl
starts_in-sort_points (p ∷ rest) =
    omega (arith, starts_in-insert_point p (sort_points rest), starts_in-sort_points rest)

starts_in-points : (orders : Table Order) → starts_in (points orders) ≡ length orders
unfolding points
starts_in-points [] = refl
starts_in-points ((session, o) ∷ rest) = omega (arith, starts_in-points rest)

sweep_bound :
    (l : List Point) (starts stops most bound : ℕ)
    → most ≤ bound
    → starts + starts_in l ≤ bound
    → (most ≤ sweep l starts stops most) × (sweep l starts stops most ≤ bound)
unfolding sweep
sweep_bound [] starts stops most bound h k = omega arith
sweep_bound (p ∷ rest) starts stops most bound h k = elim (Bool-cases p.is_start) [
  | inl up ↦
      let many : only_if p.is_start 1 ≡ 1 = rw up refl in
      rw up (
        omega (
          arith,
          sweep_bound rest (starts + 1) stops (max most (starts + 1 - stops)) bound (omega arith)
              (omega (arith, many)),
        ))
  | inr down ↦ rw down (
      omega (
        arith,
        sweep_bound rest starts (stops + 1) (max most (starts - (stops + 1))) bound (omega arith)
            (omega arith),
      ))
]

-- The reported maximum of open orders is never more than the number of orders, whatever the input.
pub max_active_bound :
    (events : List Event)
    → max_active (reduce events no_stats) ≤ length (reduce events no_stats).orders
unfolding max_active
max_active_bound events =
    let orders = (reduce events no_stats).orders in
    (sweep_bound (sort_points (points orders)) 0 0 0 (length orders) (omega arith)
      (omega (arith, starts_in-sort_points (points orders), starts_in-points orders))).1
