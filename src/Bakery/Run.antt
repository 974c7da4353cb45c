-- ===== src/Bakery/Run.antt =====
-- The loop of `main` over the days and the orders of a day.
use lean_fm.Common.{◌^◌, ℕ, zero, suc, ◌+◌, ◌*◌, ◌/◌, ◌%◌, List, [], ◌++◌, ltb, if◌then◌else◌}
use lean_fm.Bakery.Types.{day_ms, minute_ms, Event, Inventory}
use lean_fm.Bakery.Stock.{next, below}
use lean_fm.Bakery.Stock.{expire_lots}
use lean_fm.Bakery.Day.{morning_production}
use lean_fm.Bakery.Sale.{retail_sale, shift_events}

-- `base + (day < remainder)`
abbrev pub orders_on : ℕ → ℕ → ℕ → ℕ
orders_on orders days day = orders / days + (if ltb day (orders % days) then 1 else 0)

abbrev pub open_at : ℕ → ℕ
open_at day = day * day_ms + 8 * 60 * minute_ms

abbrev pub window : ℕ
window = 9 * 60 * minute_ms

-- When the customer of an index arrives, from the generator's next state.
unfoldable pub arrival_time : ℕ → ℕ → ℕ → ℕ → ℕ
arrival_time day orders_today index r =
    open_at day + (index + 1) * window / (orders_today + 1) + below r 5001

-- The loop over the orders of a day: `left` more, the next of number `order + 1` and index `index`.
unfoldable pub serve : ℕ → ℕ → ℕ → ℕ → ℕ → Inventory → ℕ → Inventory × List Event × ℕ
serve day orders_today zero order index i rng = (i, [], rng)
serve day orders_today (suc left) order index i rng =
    let r = next rng in
    let (i₁, sale, r₁) = retail_sale (order + 1) (arrival_time day orders_today index r) i r in
    let (i₂, events, r₂) = serve day orders_today left (order + 1) (index + 1) i₁ r₁ in
    (i₂, sale ++ events, r₂)

unfoldable pub run_day : ℕ → ℕ → ℕ → Inventory → ℕ → Inventory × List Event × ℕ
run_day day orders_today order i rng =
    let (i₁, expired, r₁) = expire_lots day i rng in
    let (i₂, production, r₂) = morning_production day orders_today i₁ r₁ in
    let (i₃, sales, r₃) = serve day orders_today orders_today order 0 i₂ r₂ in
    let (pay, r₄) = shift_events day r₃ in (i₃, expired ++ (production ++ (sales ++ pay)), r₄)

unfoldable pub run_days : ℕ → ℕ → ℕ → ℕ → ℕ → Inventory → ℕ → Inventory × List Event × ℕ
run_days orders days zero day order i rng = (i, [], rng)
run_days orders days (suc left) day order i rng =
    let today : ℕ = orders_on orders days day in
    let (i₁, events, r₁) = run_day day today order i rng in
    let (i₂, rest, r₂) = run_days orders days left (day + 1) (order + today) i₁ r₁ in
    (i₂, events ++ rest, r₂)

abbrev pub no_stock : Inventory
no_stock = record { baguettes = []; croissants = []; ryes = []; sourdoughs = [] }

-- The events of `main` before they are sorted and written, and the stock left at the end. The seed
-- is cut to 32 bits.
unfoldable pub generate : ℕ → ℕ → ℕ → Inventory × List Event × ℕ
generate orders days seed = run_days orders days days 0 0 no_stock (seed % 2 ^ 32)
