-- ===== src/Reducer/Examples.antt =====
-- Two events of one order.
use lean_fm.Common.{ℕ, ◌≤◌, String, ◌≡◌, List, [], ◌∷◌, length}
use lean_fm.Reducer.Fold.{Event, reduce, no_stats, counted}
use lean_fm.Reducer.Sweep.{max_active}
use lean_fm.Reducer.Peak.{open_at, max_active_bounds}
use lean_fm.Reducer.Totals.{total_of, reduce_totals}

abbrev event : String → ℕ → Event
event kind time_at = record {
  kind = kind;
  task = "retail_sale";
  session = "order-1";
  time_at = time_at;
  bytes = 60;
  amount_cents = 450;
  ingredient_cost_cents = 0;
  refund_cents = 0;
  waste_units = 0;
  waste_cents = 0;
  donated_units = 0;
  eligible_value_cents = 0;
  pay_cents = 0;
}

abbrev events : List Event
events = event "PurchaseRequested" 100 ∷ event "SaleCompleted" 900 ∷ []

reduce_totals_example :
    let s = reduce events no_stats in
    (s.total_events ≡ length events)
    × (total_of (λ b. b.events) s ≡ s.total_events)
    × (total_of (λ b. b.bytes) s ≡ s.total_bytes)
    × (total_of (λ b. b.orders) s ≡ counted "PurchaseRequested" s.kinds)
    × (total_of (λ b. b.sold) s ≡ counted "SaleCompleted" s.kinds)
reduce_totals_example = reduce_totals events

max_active_bounds_example :
    (open_at 500 (reduce events no_stats).orders ≤ max_active (reduce events no_stats))
    × (max_active (reduce events no_stats) ≤ length (reduce events no_stats).orders)
max_active_bounds_example = max_active_bounds events 500
