-- ===== src/Reducer/Fold.antt =====
-- The loop over the events.
use lean_fm.Common.{
  ℕ, ◌+◌, ◌/◌, min, max, String, Bool, Option, none, some, List, [], ◌∷◌, eqb, if◌then◌else◌, ◌==◌,
  ◌||◌, get_or,
}
use lean_fm.Common.Table.{Table, lookup, insert}

pub record Event : Type 0 where
  pub kind : String
  pub task : String
  pub session : String
  pub time_at : ℕ
  pub bytes : ℕ
  pub amount_cents : ℕ
  pub ingredient_cost_cents : ℕ
  pub refund_cents : ℕ
  pub waste_units : ℕ
  pub waste_cents : ℕ
  pub donated_units : ℕ
  pub eligible_value_cents : ℕ
  pub pay_cents : ℕ

-- A counter of `daily`.
pub record Bucket : Type 0 where
  pub events : ℕ
  pub bytes : ℕ
  pub orders : ℕ
  pub gross_sales_cents : ℕ
  pub ingredient_cost_cents : ℕ
  pub refunds_cents : ℕ
  pub waste_units : ℕ
  pub waste_cents : ℕ
  pub employee_pay_cents : ℕ
  pub sold : ℕ

abbrev pub no_bucket : Bucket
no_bucket = record {
  events = 0;
  bytes = 0;
  orders = 0;
  gross_sales_cents = 0;
  ingredient_cost_cents = 0;
  refunds_cents = 0;
  waste_units = 0;
  waste_cents = 0;
  employee_pay_cents = 0;
  sold = 0;
}

pub record Order : Type 0 where
  pub start : Option ℕ
  pub stop : Option ℕ
  pub terminal : Option String
  pub events : ℕ
  pub bytes : ℕ

abbrev pub no_order : Order
no_order = record { start = none; stop = none; terminal = none; events = 0; bytes = 0 }

pub record Stats : Type 0 where
  pub kinds : Table ℕ
  pub daily : List (ℕ × Bucket)
  pub orders : Table Order
  pub total_events : ℕ
  pub total_bytes : ℕ

abbrev pub no_stats : Stats
no_stats = record { kinds = []; daily = []; orders = []; total_events = 0; total_bytes = 0 }

abbrev pub counted : String → Table ℕ → ℕ
counted kind kinds = get_or (lookup kind kinds) 0

abbrev pub only_if : Bool → ℕ → ℕ
only_if b n = if b then n else 0

-- What the loop adds to the bucket of the event's day.
unfoldable pub add_event : Event → Bucket → Bucket
add_event e b =
    let sale = e.kind == "SaleCompleted" in
    let donation = e.kind == "DonationReceiptRecorded" in
    record {
      events = b.events + 1;
      bytes = b.bytes + e.bytes;
      orders = b.orders + only_if (e.kind == "PurchaseRequested") 1;
      gross_sales_cents = b.gross_sales_cents + only_if sale e.amount_cents;
      ingredient_cost_cents =
          b.ingredient_cost_cents + only_if (e.kind == "BatchBaked") e.ingredient_cost_cents;
      refunds_cents = b.refunds_cents + e.refund_cents;
      waste_units = b.waste_units + e.waste_units + only_if donation e.donated_units;
      waste_cents = b.waste_cents + e.waste_cents + only_if donation e.eligible_value_cents;
      employee_pay_cents = b.employee_pay_cents + only_if (e.kind == "ShiftPaid") e.pay_cents;
      sold = b.sold + only_if sale 1;
    }

-- `daily[day]`, a `defaultdict`, brought up to date
unfoldable pub add_daily : ℕ → Event → List (ℕ × Bucket) → List (ℕ × Bucket)
add_daily day e [] = (day, add_event e no_bucket) ∷ []
add_daily day e ((d, b) ∷ rest) =
    let later = add_daily day e rest in
    if eqb d day then (d, add_event e b) ∷ rest else (d, b) ∷ later

abbrev pub earliest : Option ℕ → ℕ → ℕ
earliest none t = t
earliest (some s) t = min s t

abbrev pub latest : Option ℕ → ℕ → ℕ
latest none t = t
latest (some s) t = max s t

abbrev pub is_terminal : String → Bool
is_terminal kind = kind == "SaleCompleted" || kind == "StockoutReported"

unfoldable pub add_order : Event → Order → Order
add_order e o = record {
  start = some (earliest o.start e.time_at);
  stop = some (latest o.stop e.time_at);
  terminal = if is_terminal e.kind then some e.kind else o.terminal;
  events = o.events + 1;
  bytes = o.bytes + e.bytes;
}

abbrev pub with_order : Event → Table Order → Table Order
with_order e orders =
    if e.task == "retail_sale"
    then insert e.session (add_order e (get_or (lookup e.session orders) no_order)) orders
    else orders

-- One turn of the loop.
unfoldable pub add : Stats → Event → Stats
add s e = record {
  kinds = insert e.kind (counted e.kind s.kinds + 1) s.kinds;
  daily = add_daily (e.time_at / 86_400_000) e s.daily;
  orders = with_order e s.orders;
  total_events = s.total_events + 1;
  total_bytes = s.total_bytes + e.bytes;
}

unfoldable pub reduce : List Event → Stats → Stats
reduce [] s = s
reduce (e ∷ rest) s = reduce rest (add s e)
