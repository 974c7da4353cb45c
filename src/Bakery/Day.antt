-- ===== src/Bakery/Day.antt =====
-- `morning_production`, `retail_sale` and `shift_events`.
use lean_fm.Common.{
  ℕ, ◌+◌, ◌*◌, ◌/◌, ◌%◌, max, Bool, true, false, Option, none, some, List, [], ◌∷◌, ◌++◌, leb,
  if◌then◌else◌,
}
use lean_fm.Bakery.Types.{
  day_ms, minute_ms, Product, baguette, croissant, rye, sourdough, unit_cost, freshness, Batch, Lot,
  stocking, Step, start, baked, enqueued, dequeued, EventId, Event, Inventory, bake_started,
  batch_baked, shipment_enqueued, shipment_dequeued, Values, planned, baked_units, queued, stocked,
  lots_of, set_lots,
}
use lean_fm.Bakery.Stock.{next, below}

-- f"{session}-{step}" of a batch
abbrev pub stock_id : Batch → Step → EventId
stock_id b s = record { session = stocking b; step = s }

-- A batch on its way: the lot and the event by which it was loaded.
pub record Shipment : Type 0 where
  pub lot : Lot
  pub loaded : Event

-- One turn of the production loop: the batch's three events, its shipment, and the generator.
unfoldable pub bake : ℕ → ℕ → ℕ → Product → ℕ → List Event × Shipment × ℕ
bake day per_product slot product rng =
    let r₁ = next rng in
    let units = per_product + below r₁ (max 2 (per_product / 3 + 1)) in
    let batch : Batch = record { day = day; product = product } in
    let started_at = day * day_ms + (4 * 60 + slot * 8) * minute_ms in
    let r₂ = next r₁ in
    let r₃ = next r₂ in
    let r₄ = next r₃ in
    let r₅ = next r₄ in
    let r₆ = next r₅ in
    let baked_at = started_at + (50 + below r₃ 31) * minute_ms in
    let loaded : Event = record {
      id = stock_id batch enqueued;
      prior = stock_id batch baked ∷ [];
      kind = shipment_enqueued;
      time_at = baked_at + 500 + below r₅ 1501;
      bytes = 60 + below r₆ 20;
      values = queued batch units (1 + day % 2) 0;
    } in
    (
      record {
        id = stock_id batch start;
        prior = [];
        kind = bake_started;
        time_at = started_at;
        bytes = 48 + below r₂ 16;
        values = planned batch units;
      }
          ∷ record {
            id = stock_id batch baked;
            prior = stock_id batch start ∷ [];
            kind = batch_baked;
            time_at = baked_at;
            bytes = 64 + below r₄ 24;
            values = baked_units batch units (units * unit_cost product);
          }
          ∷ loaded
          ∷ [],
      record {
        lot = record {
          batch = batch;
          product = product;
          baked_day = day;
          freshness_days = freshness product;
          unit_cost_cents = unit_cost product;
          units = units;
        };
        loaded = loaded;
      },
      r₆,
    )

-- The queue in the order of (`timeAt`, `id`): Python's stable sort. Two batches of a day with one
-- time are told apart by the names of their products, which `bake` lists in alphabetical order.
abbrev pub is_before : Shipment → Shipment → Bool
is_before a b = leb a.loaded.time_at b.loaded.time_at

unfoldable pub insert_sorted : Shipment → List Shipment → List Shipment
insert_sorted s [] = s ∷ []
insert_sorted s (t ∷ rest) = if is_before s t then s ∷ t ∷ rest else t ∷ insert_sorted s rest

unfoldable pub sort_queue : List Shipment → List Shipment
sort_queue [] = []
sort_queue (s ∷ rest) = insert_sorted s (sort_queue rest)

-- `loaded["values"]["queue_position"] = position`
abbrev pub placed : Values → ℕ → Values
placed (queued batch units truck old) position = queued batch units truck position
placed v position = v

unfoldable pub place : ℕ → List Shipment → List Shipment
place position [] = []
place position (s ∷ rest) =
    record s { loaded = record s.loaded { values = placed s.loaded.values position } }
    ∷ place (position + 1) rest

abbrev pub previous_id : Option EventId → List EventId
previous_id none = []
previous_id (some id) = id ∷ []

unfoldable pub unload : ℕ → Shipment → ℕ → Option EventId → ℕ → Event
unload day s position previous rng =
    let r₁ = next rng in
    let r₂ = next r₁ in
    record {
      id = stock_id s.lot.batch dequeued;
      prior = s.loaded.id ∷ previous_id previous;
      kind = shipment_dequeued;
      time_at = day * day_ms + 7 * 60 * minute_ms + position * 2 * minute_ms + below r₁ 30001;
      bytes = 58 + below r₂ 22;
      values = stocked s.lot.batch s.lot.units (1 + day % 2) position;
    }

abbrev pub add_lot : Lot → Inventory → Inventory
add_lot lot i = set_lots lot.product (lots_of lot.product i ++ lot ∷ []) i

-- The loop over the queue on arrival.
unfoldable pub arrive :
    ℕ → List Shipment → ℕ → Option EventId → Inventory → ℕ → Inventory × List Event × ℕ
arrive day [] position previous i rng = (i, [], rng)
arrive day (s ∷ rest) position previous i rng =
    let e = unload day s position previous rng in
    let (i', events, rng') =
      arrive day rest (position + 1) (some e.id) (add_lot s.lot i) (next (next rng)) in
    (i', e ∷ events, rng')

abbrev pub same_product : Product → Product → Bool
same_product baguette baguette = true
same_product croissant croissant = true
same_product rye rye = true
same_product sourdough sourdough = true
same_product _ _ = false

unfoldable pub loading_event : Product → List Shipment → Event → Event
loading_event product [] e = e
loading_event product (s ∷ rest) e =
    if same_product s.lot.product product then s.loaded else loading_event product rest e

abbrev pub updated : List Shipment → Event → Values → Event
updated queue e (queued batch units truck position) = loading_event batch.product queue e
updated queue e v = e

-- The loading events are shared with the queue, so they show the positions.
unfoldable pub write_back : List Shipment → List Event → List Event
write_back queue [] = []
write_back queue (e ∷ rest) = updated queue e e.values ∷ write_back queue rest

-- The events that `morning_production` appends, with the queue positions written back into the
-- loading events.
unfoldable pub morning_production : ℕ → ℕ → Inventory → ℕ → Inventory × List Event × ℕ
morning_production day orders_today i rng =
    let per_product = max 1 orders_today * 11 / 10 in
    let (e₁, s₁, r₁) = bake day per_product 0 baguette rng in
    let (e₂, s₂, r₂) = bake day per_product 1 croissant r₁ in
    let (e₃, s₃, r₃) = bake day per_product 2 rye r₂ in
    let (e₄, s₄, r₄) = bake day per_product 3 sourdough r₃ in
    let queue = place 0 (sort_queue (s₁ ∷ s₂ ∷ s₃ ∷ s₄ ∷ [])) in
    let (i', arrivals, r₅) = arrive day queue 0 none i r₄ in
    (i', write_back queue (e₁ ++ (e₂ ++ (e₃ ++ e₄))) ++ arrivals, r₅)
