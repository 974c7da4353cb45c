-- ===== src/Bakery/Sale.antt =====
-- `retail_sale` and `shift_events`.
use lean_fm.Common.{ℕ, zero, suc, ◌+◌, ◌*◌, ◌/◌, Option, none, some, List, [], ◌∷◌}
use lean_fm.Bakery.Types.{
  day_ms, minute_ms, Product, baguette, croissant, rye, sourdough, price, Batch, Lot, retail,
  payroll, Step, request, stockout, reserved, payment, completed, shift, EventId, Event, Inventory,
  purchase_requested, stockout_reported, inventory_reserved, payment_tendered, sale_completed,
  shift_paid, ordered, short, allocated, paid, sold, wages, lots_of, set_lots,
}
use lean_fm.Bakery.Stock.{next, below, units_in, reserve_fifo}

abbrev pub sale_id : ℕ → Step → EventId
sale_id order s = record { session = retail order; step = s }

-- `list(PRODUCTS)[index]`
abbrev pub product_at : ℕ → Product
product_at zero = baguette
product_at (suc zero) = croissant
product_at (suc (suc zero)) = rye
product_at _ = sourdough

-- The sale after its request: refused for want of stock, or with the units reserved, paid and sold.
unfoldable pub sell_stock :
    ℕ
    → ℕ
    → Product
    → ℕ
    → ℕ
    → Option (List (Batch × ℕ) × List Lot)
    → Inventory
    → Inventory × List Event × ℕ
sell_stock order arrival product quantity rng none i =
    let r₁ = next rng in
    let r₂ = next r₁ in
    (
      i,
      record {
        id = sale_id order stockout;
        prior = sale_id order request ∷ [];
        kind = stockout_reported;
        time_at = arrival + 80 + below r₁ 421;
        bytes = 44 + below r₂ 18;
        values = short product quantity (units_in (lots_of product i));
      }
          ∷ [],
      r₂,
    )
sell_stock order arrival product quantity rng (some (taken, left)) i =
    let amount : ℕ = price product * quantity in
    let r₁ = next rng in
    let r₂ = next r₁ in
    let r₃ = next r₂ in
    let r₄ = next r₃ in
    let r₅ = next r₄ in
    let r₆ = next r₅ in
    let reserved_at = arrival + 80 + below r₁ 421 in
    let paid_at = reserved_at + 150 + below r₃ 851 in
    (
      set_lots product left i,
      record {
        id = sale_id order reserved;
        prior = sale_id order request ∷ [];
        kind = inventory_reserved;
        time_at = reserved_at;
        bytes = 62 + below r₂ 24;
        values = allocated product quantity taken;
      }
          ∷ record {
            id = sale_id order payment;
            prior = sale_id order reserved ∷ [];
            kind = payment_tendered;
            time_at = paid_at;
            bytes = 48 + below r₄ 20;
            values = paid amount;
          }
          ∷ record {
            id = sale_id order completed;
            prior = sale_id order reserved ∷ sale_id order payment ∷ [];
            kind = sale_completed;
            time_at = paid_at + 100 + below r₅ 401;
            bytes = 54 + below r₆ 22;
            values = sold product quantity amount;
          }
          ∷ [],
      r₆,
    )

abbrev pub request_event : ℕ → ℕ → Product → ℕ → ℕ → Event
request_event order arrival product quantity r = record {
  id = sale_id order request;
  prior = [];
  kind = purchase_requested;
  time_at = arrival;
  bytes = 58 + below r 24;
  values = ordered product quantity (price product * quantity);
}

unfoldable pub retail_sale : ℕ → ℕ → Inventory → ℕ → Inventory × List Event × ℕ
unfolding sell_stock
retail_sale order arrival i rng =
    let r₁ = next rng in
    let r₂ = next r₁ in
    let r₃ = next r₂ in
    let product = product_at (below r₁ 4) in
    let quantity = 1 + below r₂ 6 in
    let allocation = reserve_fifo (lots_of product i) quantity in
    let (i', events, rng') = sell_stock order arrival product quantity r₃ allocation i in
    (i', request_event order arrival product quantity r₃ ∷ events, rng')

-- The hourly wages in the order of `staff`.
abbrev pub staff : List ℕ
staff = 2200 ∷ 2200 ∷ 2300 ∷ 1800 ∷ 1800 ∷ 2000 ∷ 2800 ∷ []

unfoldable pub shifts : ℕ → ℕ → List ℕ → ℕ → List Event × ℕ
shifts day index [] rng = ([], rng)
shifts day index (hourly ∷ rest) rng =
    let r₁ = next rng in
    let r₂ = next r₁ in
    let minutes = 420 + below r₁ 121 in
    let (events, rng') = shifts day (index + 1) rest r₂ in
    (
      record {
        id = record { session = payroll day; step = shift (index + 1) };
        prior = [];
        kind = shift_paid;
        time_at = day * day_ms + (13 * 60 + below r₂ 180) * minute_ms;
        bytes = 52;
        values = wages minutes hourly (minutes * hourly / 60);
      }
          ∷ events,
      rng',
    )

unfoldable pub shift_events : ℕ → ℕ → List Event × ℕ
shift_events day rng = shifts day 0 staff rng
