-- ===== src/Bakery/Balance.antt =====
-- Whole runs: the units of every run are accounted for.
use lean_fm.Common.{ℕ, zero, suc, ◌+◌, ◌%◌, ◌^◌, ◌≡◌, List, [], ◌∷◌, ◌++◌, arith}
use lean_fm.Bakery.Types.{Event, Inventory}
use lean_fm.Bakery.Stock.{expire, expire_lots, next}
use lean_fm.Bakery.Sale.{shifts, shift_events}
use lean_fm.Bakery.Run.{serve, run_day, run_days, generate, no_stock, orders_on, arrival_time}
use lean_fm.Bakery.Ledger.{
  baked_in, sold_in, donated_in, stock, Balances, Balances-append, expire-Balances,
  retail_sale-Balances,
}
use lean_fm.Bakery.Supply.{production-Balances}

serve-Balances :
    (day orders_today left order index : ℕ) (i : Inventory) (rng : ℕ)
    → Balances
        (stock i)
        (serve day orders_today left order index i rng).1
        (stock (serve day orders_today left order index i rng).0)
unfolding serve
serve-Balances day orders_today zero order index i rng = omega arith
serve-Balances day orders_today (suc left) order index i rng =
    Balances-append _ _
      (retail_sale-Balances (order + 1) (arrival_time day orders_today index (next rng)) i
        (next rng))
      (serve-Balances day orders_today left (order + 1) (index + 1) _ _)

shifts-Balances :
    (day index : ℕ) (wages : List ℕ) (rng n : ℕ) → Balances n (shifts day index wages rng).0 n
unfolding shifts
shifts-Balances day index [] rng n = omega arith
shifts-Balances day index (hourly ∷ rest) rng n =
    omega (arith, (shifts-Balances day (index + 1) rest (next (next rng)) n).accounts)

beside :
    {a b : ℕ} {events : List Event}
    → Balances a events b
    → (others : ℕ) → Balances (a + others) events (b + others)
beside h others = record { accounts = omega (arith, h.accounts) }

together :
    {a b c d : ℕ} (xs ys : List Event)
    → Balances a xs b
    → Balances c ys d
    → Balances (a + c) (xs ++ ys) (b + d)
together {b = b} {c = c} xs ys h k =
    Balances-append {b = b + c} xs ys (record { accounts = omega (arith, h.accounts) })
      (record { accounts = omega (arith, k.accounts) })

expire_lots-Balances :
    (day : ℕ) (i : Inventory) (rng : ℕ)
    → Balances (stock i) (expire_lots day i rng).1 (stock (expire_lots day i rng).0)
unfolding expire_lots
expire_lots-Balances day i rng =
    let x₁ = expire day i.baguettes rng in
    let x₂ = expire day i.croissants x₁.2 in
    let x₃ = expire day i.ryes x₂.2 in
    let x₄ = expire day i.sourdoughs x₃.2 in
    let whole = together x₁.1 (x₂.1 ++ (x₃.1 ++ x₄.1)) (expire-Balances day i.baguettes rng) (
      together x₂.1 (x₃.1 ++ x₄.1) (expire-Balances day i.croissants x₁.2) (
        together x₃.1 x₄.1 (expire-Balances day i.ryes x₂.2)
          (expire-Balances day i.sourdoughs x₃.2))) in
    record { accounts = omega (arith, whole.accounts) }

run_day-Balances :
    (day orders_today order : ℕ) (i : Inventory) (rng : ℕ)
    → Balances
        (stock i)
        (run_day day orders_today order i rng).1
        (stock (run_day day orders_today order i rng).0)
unfolding run_day shift_events
run_day-Balances day orders_today order i rng =
    Balances-append _ _ (expire_lots-Balances day i rng) (
      Balances-append _ _ (production-Balances day orders_today _ _) (
        Balances-append _ _ (serve-Balances day orders_today orders_today order 0 _ _)
          (shifts-Balances day 0 _ _ _)))

run_days-Balances :
    (orders days left day order : ℕ) (i : Inventory) (rng : ℕ)
    → Balances
        (stock i)
        (run_days orders days left day order i rng).1
        (stock (run_days orders days left day order i rng).0)
unfolding run_days
run_days-Balances orders days zero day order i rng = omega arith
run_days-Balances orders days (suc left) day order i rng =
    let today : ℕ = orders_on orders days day in
    Balances-append _ _ (run_day-Balances day today order i rng)
      (run_days-Balances orders days left (day + 1) (order + today) _ _)

-- In the events of every run, whatever the number of orders and days and the seed, the units baked
-- are exactly the units sold, the units donated and the units left in stock at the end.
pub generate_balances :
    (orders days seed : ℕ)
    → let (left, events, _) = generate orders days seed in
      baked_in events ≡ sold_in events + donated_in events + stock left
unfolding generate
generate_balances orders days seed =
    omega (arith, (run_days-Balances orders days days 0 0 no_stock (seed % 2 ^ 32)).accounts)
