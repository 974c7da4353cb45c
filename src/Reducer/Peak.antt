-- ===== src/Reducer/Peak.antt =====
-- The reported maximum of open orders against the orders that are open at one time.
use lean_fm.Common.{
  ℕ, ◌+◌, ◌-◌, ◌≤◌, ◌<◌, max, min, ◌≡◌, refl, String, Bool, false, not, ◌&&◌, Option, none, some,
  List, [], ◌∷◌, arith, Bool-cases, inl, inr, length, sum_by, leb, ltb, All, get_or, ◌==◌,
}
use lean_fm.Common.Table.{Table, lookup, insert}
use lean_fm.Reducer.Fold.{Order, only_if, Event, no_order, add_order, add, reduce, no_stats, Stats}
use lean_fm.Reducer.Sweep.{Point, points, is_before, insert_point, sort_points, sweep, max_active}
use lean_fm.Reducer.Concurrency.{max_active_bound}

-- A count over the points does not depend on their order.
sum_by-insert_point :
    (w : Point → ℕ) (p : Point) (l : List Point) → sum_by w (insert_point p l) ≡ w p + sum_by w l
unfolding insert_point
sum_by-insert_point w p [] = refl
sum_by-insert_point w p (q ∷ rest) = elim (Bool-cases (is_before p q)) [
  | inl first ↦ rw first (omega arith)
  | inr later ↦ rw later (omega (arith, sum_by-insert_point w p rest))
]

sum_by-sort_points : (w : Point → ℕ) (l : List Point) → sum_by w (sort_points l) ≡ sum_by w l
unfolding sort_points
sum_by-sort_points w [] = refl
sum_by-sort_points w (p ∷ rest) =
    omega (arith, sum_by-insert_point w p (sort_points rest), sum_by-sort_points w rest)

abbrev From : ℕ → List Point → Type 0
From t l = All (λ (q : Point). t ≤ q.time) l

abbrev IsSorted : List Point → Type 0
IsSorted [] = Unit
IsSorted (p ∷ rest) = From p.time rest × IsSorted rest

From-insert_point :
    (t : ℕ) (p : Point) (l : List Point) → t ≤ p.time → From t l → From t (insert_point p l)
unfolding insert_point
From-insert_point t p [] h k = (h, tt)
From-insert_point t p (q ∷ rest) h k = elim (Bool-cases (is_before p q)) [
  | inl first ↦ rw first (h, k)
  | inr later ↦ rw later (k.0, From-insert_point t p rest h k.1)
]

From-trans : (s t : ℕ) (l : List Point) → s ≤ t → From t l → From s l
From-trans s t [] h k = tt
From-trans s t (q ∷ rest) h k = (omega (arith, h, k.0), From-trans s t rest h k.1)

insert_point-IsSorted : (p : Point) (l : List Point) → IsSorted l → IsSorted (insert_point p l)
unfolding insert_point
insert_point-IsSorted p [] h = (tt, tt)
insert_point-IsSorted p (q ∷ rest) h = elim (Bool-cases (is_before p q)) [
  | inl first ↦
      let le : p.time ≤ q.time = ground (arith, first) in
      rw first ((le, From-trans p.time q.time rest le h.0), h)
  | inr later ↦
      let le : q.time ≤ p.time = ground (arith, later) in
      rw later (From-insert_point q.time p rest le h.0, insert_point-IsSorted p rest h.1)
]

sort_points-IsSorted : (l : List Point) → IsSorted (sort_points l)
unfolding sort_points
sort_points-IsSorted [] = tt
sort_points-IsSorted (p ∷ rest) =
    insert_point-IsSorted p (sort_points rest) (sort_points-IsSorted rest)

-- The starts and the stops up to a time.
abbrev begun : ℕ → Point → ℕ
begun t p = only_if (p.is_start && leb p.time t) 1

abbrev over : ℕ → Point → ℕ
over t p = only_if (not p.is_start && leb p.time t) 1

later_lem :
    (t s : ℕ) (l : List Point)
    → t < s
    → From s l
    → (sum_by (begun t) l ≡ 0) × (sum_by (over t) l ≡ 0)
later_lem t s [] h k = (refl, refl)
later_lem t s (q ∷ rest) h k =
    let (b, o) = later_lem t s rest h k.1 in
    let out : leb q.time t ≡ false = ground (arith, h, k.0) in
    (ground (arith, b, out), ground (arith, o, out))

sweep-grows : (l : List Point) (starts stops most : ℕ) → most ≤ sweep l starts stops most
unfolding sweep
sweep-grows [] starts stops most = omega arith
sweep-grows (p ∷ rest) starts stops most = elim (Bool-cases p.is_start) [
  | inl up ↦
      rw up (omega (arith, sweep-grows rest (starts + 1) stops (max most (starts + 1 - stops))))
  | inr down ↦
      rw down (omega (arith, sweep-grows rest starts (stops + 1) (max most (starts - (stops + 1)))))
]

-- The sweep over sorted points passes the count at every time.
sweep_reaches :
    (t : ℕ) (l : List Point) (starts stops most : ℕ)
    → IsSorted l
    → starts - stops ≤ most
    → starts + sum_by (begun t) l - (stops + sum_by (over t) l) ≤ sweep l starts stops most
unfolding sweep
sweep_reaches t [] starts stops most h k = omega (arith, k)
sweep_reaches t (p ∷ rest) starts stops most h k = elim (Bool-cases (leb p.time t)) [
  | inl soon ↦ elim (Bool-cases p.is_start) [
    | inl up ↦
        let later =
          sweep_reaches t rest (starts + 1) stops (max most (starts + 1 - stops)) h.1
            (omega arith) in
        rw up (rw soon (omega (arith, later)))
    | inr down ↦
        let later =
          sweep_reaches t rest starts (stops + 1) (max most (starts - (stops + 1))) h.1
            (omega arith) in
        rw down (rw soon (omega (arith, later)))
  ]
  | inr late ↦
      let none_left = later_lem t p.time rest (ground (arith, late)) h.0 in
      let grows = sweep-grows (p ∷ rest) starts stops most in
      let begun_none : begun t p ≡ 0 = ground (arith, late) in
      let over_none : over t p ≡ 0 = ground (arith, late) in
      omega (arith, none_left.0, none_left.1, begun_none, over_none, grows, k)
]

-- An order that has started and stopped, in this order.
abbrev IsOrder : Order → Type 0
IsOrder o = (s : ℕ) × (e : ℕ) × (o.start ≡ some s) × (o.stop ≡ some e) × (s ≤ e)

abbrev AllOrders : Table Order → Type 0
AllOrders orders = All (λ (entry : String × Order). IsOrder entry.1) orders

-- Whether an order has started and not yet stopped at a time.
unfoldable pub is_open : ℕ → Order → Bool
is_open t o = leb (get_or o.start 0) t && ltb t (get_or o.stop 0)

unfoldable pub open_at : ℕ → Table Order → ℕ
unfolding is_open
open_at t orders = sum_by (λ (entry : String × Order). only_if (is_open t entry.1) 1) orders

open_lem :
    (t : ℕ) (orders : Table Order)
    → AllOrders orders
    → sum_by (begun t) (points orders) ≡ open_at t orders + sum_by (over t) (points orders)
unfolding points open_at is_open
open_lem t [] h = refl
open_lem t ((session, o) ∷ rest) h =
    let (s, e, at_start, at_stop, ordered) = h.0 in
    let later = open_lem t rest h.1 in rw at_start (rw at_stop (ground (arith, later, ordered)))

insert-AllOrders :
    (key : String) (o : Order) (orders : Table Order)
    → IsOrder o
    → AllOrders orders
    → AllOrders (insert key o orders)
unfolding insert
insert-AllOrders key o [] h k = (h, tt)
insert-AllOrders key o ((name, old) ∷ rest) h k = elim (Bool-cases (name == key)) [
  | inl same ↦ rw same (h, k.1)
  | inr other ↦ rw other (k.0, insert-AllOrders key o rest h k.1)
]

-- An order that is new, or that has its two times.
abbrev IsKnown : Option Order → Type 0
IsKnown none = Unit
IsKnown (some o) = IsOrder o

lookup-IsKnown :
    (key : String) (orders : Table Order) → AllOrders orders → IsKnown (lookup key orders)
unfolding lookup
lookup-IsKnown key [] h = tt
lookup-IsKnown key ((name, o) ∷ rest) h = elim (Bool-cases (name == key)) [
  | inl same ↦ rw same h.0
  | inr other ↦ rw other (lookup-IsKnown key rest h.1)
]

add_order-IsOrder :
    (e : Event) (o : Option Order) → IsKnown o → IsOrder (add_order e (get_or o no_order))
unfolding add_order
add_order-IsOrder e none h = (e.time_at, e.time_at, refl, refl, omega arith)
add_order-IsOrder e (some o) (s, f, at_start, at_stop, ordered) =
    (min s e.time_at, max f e.time_at, rw at_start refl, rw at_stop refl, omega (arith, ordered))

reduce-AllOrders :
    (events : List Event) (s : Stats) → AllOrders s.orders → AllOrders (reduce events s).orders
unfolding reduce add
reduce-AllOrders [] s h = h
reduce-AllOrders (e ∷ rest) s h =
    reduce-AllOrders rest (add s e) (elim (Bool-cases (e.task == "retail_sale")) [
      | inl sale ↦ rw sale (
          insert-AllOrders e.session (add_order e (get_or (lookup e.session s.orders) no_order))
            s.orders
            (add_order-IsOrder e (lookup e.session s.orders) (lookup-IsKnown e.session s.orders h))
            h)
      | inr other ↦ rw other h
    ])

-- Whatever the events, the reported maximum is at least the number of orders that are open at any
-- one time, and at most the number of all orders.
pub max_active_bounds :
    (events : List Event) (t : ℕ)
    → (open_at t (reduce events no_stats).orders ≤ max_active (reduce events no_stats))
      × (max_active (reduce events no_stats) ≤ length (reduce events no_stats).orders)
unfolding max_active
max_active_bounds events t =
    let orders = (reduce events no_stats).orders in
    let l = points orders in
    let reached = sweep_reaches t (sort_points l) 0 0 0 (sort_points-IsSorted l) (omega arith) in
    let counts = open_lem t orders (reduce-AllOrders events no_stats tt) in
    (
      omega (arith, reached, counts, sum_by-sort_points (begun t) l, sum_by-sort_points (over t) l),
      max_active_bound events,
    )
