-- ===== src/Bakery/Supply.antt =====
-- Morning production: the stock gains the units of the day's batches.
use lean_fm.Common.{
  ℕ, ◌+◌, ◌*◌, ◌/◌, ◌≡◌, ◌∙◌, refl, max, Option, none, some, List, [], ◌∷◌, ◌++◌, sum_by,
  sum_by-append, All, arith, Bool-cases, inl, inr,
}
use lean_fm.Bakery.Types.{
  Product, baguette, croissant, rye, sourdough, Lot, Event, EventId, Inventory, Kind, Values,
  queued, lots_of,
}
use lean_fm.Bakery.Stock.{next}
use lean_fm.Bakery.Day.{
  Shipment, bake, insert_sorted, sort_queue, is_before, place, placed, unload, add_lot, arrive,
  same_product, loading_event, updated, write_back, morning_production,
}
use lean_fm.Bakery.Ledger.{
  baked_value, sold_value, donated_value, baked_in, sold_in, donated_in, stock, Balances,
  Balances-append, stock-set_lots,
}

abbrev queue_units : List Shipment → ℕ
queue_units = sum_by (λ s. s.lot.units)

-- A loading event moves no units.
abbrev IsNeutral : Event → Type 0
IsNeutral e =
    (baked_value e.values ≡ 0) × (sold_value e.values ≡ 0) × (donated_value e.values e.kind ≡ 0)

abbrev AllNeutral : List Shipment → Type 0
AllNeutral = All (λ s. IsNeutral s.loaded)

module _ (day per_product slot : ℕ) (p : Product) (rng : ℕ) where
  bake-Balances :
      Balances 0 (bake day per_product slot p rng).0 (bake day per_product slot p rng).1.lot.units
  unfolding bake
  bake-Balances = omega arith

  bake-IsNeutral : IsNeutral (bake day per_product slot p rng).1.loaded
  unfolding bake
  bake-IsNeutral = omega arith

insert_sorted_lem :
    (s : Shipment) (q : List Shipment)
    → IsNeutral s.loaded
    → AllNeutral q
    → (queue_units (insert_sorted s q) ≡ s.lot.units + queue_units q)
      × AllNeutral (insert_sorted s q)
unfolding insert_sorted
insert_sorted_lem s [] n h = (refl, (n, tt))
insert_sorted_lem s (t ∷ rest) n h = elim (Bool-cases (is_before s t)) [
  | inl first ↦ rw first (refl, (n, h))
  | inr later ↦
      let (units, neutral) = insert_sorted_lem s rest n h.1 in
      rw later (omega (arith, units), (h.0, neutral))
]

sort_queue_lem :
    (q : List Shipment)
    → AllNeutral q
    → (queue_units (sort_queue q) ≡ queue_units q) × AllNeutral (sort_queue q)
unfolding sort_queue
sort_queue_lem [] h = (refl, tt)
sort_queue_lem (s ∷ rest) h =
    let (units, neutral) = sort_queue_lem rest h.1 in
    let (units', neutral') = insert_sorted_lem s (sort_queue rest) h.0 neutral in
    (omega (arith, units, units'), neutral')

placed-neutral :
    (v : Values) (k : Kind) (n : ℕ)
    → (baked_value (placed v n) ≡ baked_value v)
      × (sold_value (placed v n) ≡ sold_value v)
      × (donated_value (placed v n) k ≡ donated_value v k)
placed-neutral (queued batch units truck position) k n = (refl, refl, refl)
placed-neutral v k n = (refl, refl, refl)

place_lem :
    (n : ℕ) (q : List Shipment)
    → AllNeutral q
    → (queue_units (place n q) ≡ queue_units q) × AllNeutral (place n q)
unfolding place
place_lem n [] h = (refl, tt)
place_lem n (s ∷ rest) h =
    let (units, neutral) = place_lem (n + 1) rest h.1 in
    let (b, c, e) = placed-neutral s.loaded.values s.loaded.kind n in
    (omega (arith, units), ((b ∙ h.0.0, c ∙ h.0.1, e ∙ h.0.2), neutral))

loading_event-IsNeutral :
    (p : Product) (q : List Shipment) (e : Event)
    → AllNeutral q
    → IsNeutral e
    → IsNeutral (loading_event p q e)
unfolding loading_event
loading_event-IsNeutral p [] e h n = n
loading_event-IsNeutral p (s ∷ rest) e h n = elim (Bool-cases (same_product s.lot.product p)) [
  | inl found ↦ rw found h.0
  | inr other ↦ rw other (loading_event-IsNeutral p rest e h.1 n)
]

updated_lem :
    (q : List Shipment) (e : Event) (v : Values)
    → AllNeutral q
    → e.values ≡ v
    → let u = updated q e v in
      (baked_value u.values ≡ baked_value v)
      × (sold_value u.values ≡ sold_value v)
      × (donated_value u.values u.kind ≡ donated_value v e.kind)
updated_lem q e (queued batch units truck position) h same =
    loading_event-IsNeutral batch.product q e h (rw same (refl, refl, refl))
updated_lem q e v h same = rw same (refl, refl, refl)

write_back_sums :
    (q : List Shipment) (events : List Event)
    → AllNeutral q
    → (baked_in (write_back q events) ≡ baked_in events)
      × (sold_in (write_back q events) ≡ sold_in events)
      × (donated_in (write_back q events) ≡ donated_in events)
unfolding write_back
write_back_sums q [] h = (refl, refl, refl)
write_back_sums q (e ∷ rest) h =
    omega (arith, write_back_sums q rest h, updated_lem q e e.values h refl)

stock-add_lot : (lot : Lot) (i : Inventory) → stock (add_lot lot i) ≡ stock i + lot.units
stock-add_lot lot i = omega (
  arith,
  stock-set_lots lot.product (lots_of lot.product i ++ lot ∷ []) i,
  sum_by-append {0} (λ (l : Lot). l.units) (lots_of lot.product i) (lot ∷ []),
)

arrive-Balances :
    (day : ℕ) (q : List Shipment) (position : ℕ) (previous : Option EventId) (i : Inventory)
    (rng : ℕ)
    → Balances
        (stock i + queue_units q)
        (arrive day q position previous i rng).1
        (stock (arrive day q position previous i rng).0)
unfolding arrive unload
arrive-Balances day [] position previous i rng = omega arith
arrive-Balances day (s ∷ rest) position previous i rng =
    let e = unload day s position previous rng in
    let ih =
      arrive-Balances day rest (position + 1) (some e.id) (add_lot s.lot i) (next (next rng)) in
    record { accounts = omega (arith, ih.accounts, stock-add_lot s.lot i) }

-- Loading and arriving: the stock gains what the queue holds.
arrive_queue-Balances :
    (day : ℕ) (events : List Event) (q : List Shipment) (i : Inventory) (rng : ℕ)
    → Balances 0 events (queue_units q)
    → AllNeutral q
    → let queue = place 0 (sort_queue q) in
      let (after, arrivals, _) = arrive day queue 0 none i rng in
      Balances (stock i) (write_back queue events ++ arrivals) (stock after)
arrive_queue-Balances day events q i rng h neutral =
    let (sorted_units, sorted) = sort_queue_lem q neutral in
    let (placed_units, all) = place_lem 0 (sort_queue q) sorted in
    let queue = place 0 (sort_queue q) in
    let sums = write_back_sums queue events all in
    let written : Balances 0 (write_back queue events) (queue_units queue) = record {
      accounts = omega (arith, h.accounts, sums, sorted_units, placed_units);
    } in
    let start : Balances (stock i) (write_back queue events) (stock i + queue_units queue) =
      record { accounts = omega (arith, written.accounts) } in
    Balances-append _ _ start (arrive-Balances day queue 0 none i rng)

bake_pair :
    {e : List Event} (es : List Event) (s : Shipment) (q : List Shipment)
    → Balances 0 es s.lot.units
    → Balances 0 e (queue_units q)
    → Balances 0 (es ++ e) (queue_units (s ∷ q))
bake_pair {e = e} es s q h k =
    Balances-append es e h (record { accounts = omega (arith, k.accounts) })

pub production-Balances :
    (day orders_today : ℕ) (i : Inventory) (rng : ℕ)
    → Balances
        (stock i)
        (morning_production day orders_today i rng).1
        (stock (morning_production day orders_today i rng).0)
unfolding morning_production
production-Balances day orders_today i rng =
    let n : ℕ = max 1 orders_today * 11 / 10 in
    let b₁ = bake day n 0 baguette rng in
    let b₂ = bake day n 1 croissant b₁.2 in
    let b₃ = bake day n 2 rye b₂.2 in
    let b₄ = bake day n 3 sourdough b₃.2 in
    let last : Balances 0 b₄.0 (queue_units (b₄.1 ∷ [])) = record {
      accounts = omega (arith, (bake-Balances day n 3 sourdough b₃.2).accounts);
    } in
    arrive_queue-Balances day (b₁.0 ++ (b₂.0 ++ (b₃.0 ++ b₄.0))) (b₁.1 ∷ b₂.1 ∷ b₃.1 ∷ b₄.1 ∷ []) i
      b₄.2
      (bake_pair b₁.0 b₁.1 (b₂.1 ∷ b₃.1 ∷ b₄.1 ∷ []) (bake-Balances day n 0 baguette rng) (
        bake_pair b₂.0 b₂.1 (b₃.1 ∷ b₄.1 ∷ []) (bake-Balances day n 1 croissant b₁.2)
          (bake_pair b₃.0 b₃.1 (b₄.1 ∷ []) (bake-Balances day n 2 rye b₂.2) last)))
      (
        bake-IsNeutral day n 0 baguette rng,
        (
          bake-IsNeutral day n 1 croissant b₁.2,
          (bake-IsNeutral day n 2 rye b₂.2, (bake-IsNeutral day n 3 sourdough b₃.2, tt)),
        ),
      )
