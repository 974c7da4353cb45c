-- ===== src/Bakery/Types.antt =====
-- Products, lots and events of scripts/generate_bakery_events.py.
use lean_fm.Common.{ℕ, List}

abbrev pub day_ms : ℕ
day_ms = 86_400_000

abbrev pub minute_ms : ℕ
minute_ms = 60_000

pub data Product : Type 0 where
  baguette croissant rye sourdough : Product

-- The columns of PRODUCTS: price, unit cost and days of freshness.
unfoldable pub price : Product → ℕ
price baguette = 450
price croissant = 325
price rye = 700
price sourdough = 850

unfoldable pub unit_cost : Product → ℕ
unit_cost baguette = 115
unit_cost croissant = 95
unit_cost rye = 180
unit_cost sourdough = 225

unfoldable pub freshness : Product → ℕ
freshness baguette = 2
freshness croissant = 2
freshness rye = 3
freshness sourdough = 3

-- f"day-{day+1:03d}-{product}"
pub record Batch : Type 0 where
  pub day : ℕ
  pub product : Product

pub record Lot : Type 0 where
  pub batch : Batch
  pub product : Product
  pub baked_day : ℕ
  pub freshness_days : ℕ
  pub unit_cost_cents : ℕ
  pub units : ℕ

pub data Session : Type 0 where
  charity : Batch → Session
  stocking : Batch → Session
  retail : (order : ℕ) → Session
  payroll : (day : ℕ) → Session

pub data Step : Type 0 where
  transfer receipt start baked enqueued dequeued request stockout reserved payment completed : Step
  shift : (index : ℕ) → Step

pub record EventId : Type 0 where
  pub session : Session
  pub step : Step

pub data Kind : Type 0 where
  charity_transfer donation_receipt bake_started batch_baked shipment_enqueued : Kind
  shipment_dequeued purchase_requested stockout_reported inventory_reserved : Kind
  payment_tendered sale_completed shift_paid : Kind

-- The entries of `values` that are numbers, by kind; the texts among them repeat the batch, the
-- product or the outcome.
pub data Values : Type 0 where
  donated : (batch : Batch) (units value_cents : ℕ) → Values
  planned : (batch : Batch) (units : ℕ) → Values
  baked_units : (batch : Batch) (units ingredient_cost_cents : ℕ) → Values
  queued : (batch : Batch) (units truck position : ℕ) → Values
  stocked : (batch : Batch) (units truck position : ℕ) → Values
  ordered : (product : Product) (quantity price_cents : ℕ) → Values
  short : (product : Product) (requested available : ℕ) → Values
  allocated : (product : Product) (quantity : ℕ) (batches : List (Batch × ℕ)) → Values
  paid : (amount_cents : ℕ) → Values
  sold : (product : Product) (quantity amount_cents : ℕ) → Values
  wages : (minutes hourly_cents pay_cents : ℕ) → Values

pub record Event : Type 0 where
  pub id : EventId
  pub prior : List EventId
  pub kind : Kind
  pub time_at : ℕ
  pub bytes : ℕ
  pub values : Values

-- `inventory`, a deque of lots for each product
pub record Inventory : Type 0 where
  pub baguettes : List Lot
  pub croissants : List Lot
  pub ryes : List Lot
  pub sourdoughs : List Lot

abbrev pub lots_of : Product → Inventory → List Lot
lots_of baguette i = i.baguettes
lots_of croissant i = i.croissants
lots_of rye i = i.ryes
lots_of sourdough i = i.sourdoughs

abbrev pub set_lots : Product → List Lot → Inventory → Inventory
set_lots baguette l i = record i { baguettes = l }
set_lots croissant l i = record i { croissants = l }
set_lots rye l i = record i { ryes = l }
set_lots sourdough l i = record i { sourdoughs = l }
