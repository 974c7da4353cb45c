-- ===== src/Bakery/Ledger.antt =====
-- Where the units go: every unit baked is sold, donated or still in stock.
use lean_fm.Common.{
  ℕ, ◌+◌, ◌≡◌, refl, Option, none, some, List, [], ◌∷◌, ◌++◌, sum_by, sum_by-append, arith,
  Bool-cases, inl, inr, subst,
}
use lean_fm.Bakery.Types.{
  Product, baguette, croissant, rye, sourdough, Batch, Lot, Event, Inventory, Kind,
  charity_transfer, Values, donated, baked_units, sold, lots_of, set_lots,
}
use lean_fm.Bakery.Stock.{
  units_in, reserve_fifo, expire, below, donate, donation, after_donation, is_expired, next,
}
use lean_fm.Bakery.Fifo.{Reserves, reserve_exact}
use lean_fm.Bakery.Sale.{product_at, sell_stock, retail_sale}

abbrev pub baked_value : Values → ℕ
baked_value (baked_units batch units cost) = units
baked_value _ = 0

abbrev pub sold_value : Values → ℕ
sold_value (sold product quantity amount) = quantity
sold_value _ = 0

-- A donation shows in two events; the transfer counts.
abbrev pub donated_value : Values → Kind → ℕ
donated_value (donated batch units value) charity_transfer = units
donated_value _ _ = 0

abbrev pub baked_in : List Event → ℕ
baked_in = sum_by (λ e. baked_value e.values)

abbrev pub sold_in : List Event → ℕ
sold_in = sum_by (λ e. sold_value e.values)

abbrev pub donated_in : List Event → ℕ
donated_in = sum_by (λ e. donated_value e.values e.kind)

abbrev pub stock : Inventory → ℕ
stock i = units_in i.baguettes + units_in i.croissants + units_in i.ryes + units_in i.sourdoughs

-- The events account for the change of the stock.
pub record Balances (before : ℕ) (events : List Event) (after : ℕ) : Type 0 where
  pub accounts : after + sold_in events + donated_in events ≡ before + baked_in events

pub Balances-append :
    {a b c : ℕ} (xs ys : List Event) → Balances a xs b → Balances b ys c → Balances a (xs ++ ys) c
Balances-append xs ys h k = record {
  accounts = omega (
    arith,
    sum_by-append {0} (λ (e : Event). baked_value e.values) xs ys,
    sum_by-append {0} (λ (e : Event). sold_value e.values) xs ys,
    sum_by-append {0} (λ (e : Event). donated_value e.values e.kind) xs ys,
    h.accounts,
    k.accounts,
  );
}

donation-Balances :
    (day : ℕ) (lot : Lot) (rng others : ℕ)
    → Balances (lot.units + others) (donation day lot rng) others
unfolding donate
donation-Balances day lot rng others = ground arith

pub expire-Balances :
    (day : ℕ) (lots : List Lot) (rng : ℕ)
    → Balances (units_in lots) (expire day lots rng).1 (units_in (expire day lots rng).0)
unfolding expire donate
expire-Balances day [] rng = omega arith
expire-Balances day (lot ∷ lots) rng = elim (Bool-cases (is_expired day lot)) [
  | inl old ↦ rw old (
      Balances-append (donation day lot rng) _ (donation-Balances day lot rng (units_in lots))
        (expire-Balances day lots (after_donation lot rng)))
  | inr fresh ↦ rw fresh (omega arith)
]

pub stock-set_lots :
    (p : Product) (left : List Lot) (i : Inventory)
    → stock (set_lots p left i) + units_in (lots_of p i) ≡ stock i + units_in left
stock-set_lots baguette left i = omega arith
stock-set_lots croissant left i = omega arith
stock-set_lots rye left i = omega arith
stock-set_lots sourdough left i = omega arith

sell_stock-Balances :
    (order arrival : ℕ) (p : Product) (quantity rng : ℕ) (o : Option (List (Batch × ℕ) × List Lot))
    (i : Inventory)
    → reserve_fifo (lots_of p i) quantity ≡ o
    → Balances
        (stock i)
        (sell_stock order arrival p quantity rng o i).1
        (stock (sell_stock order arrival p quantity rng o i).0)
unfolding sell_stock
sell_stock-Balances order arrival p quantity rng none i h = omega arith
sell_stock-Balances order arrival p quantity rng (some (taken, left)) i h =
    let (_, taken_out) =
      subst (Reserves (lots_of p i) quantity) h (reserve_exact (lots_of p i) quantity) in
    record { accounts = omega (arith, taken_out, stock-set_lots p left i) }

pub retail_sale-Balances :
    (order arrival : ℕ) (i : Inventory) (rng : ℕ)
    → Balances
        (stock i)
        (retail_sale order arrival i rng).1
        (stock (retail_sale order arrival i rng).0)
unfolding retail_sale
retail_sale-Balances order arrival i rng =
    let r₁ = next rng in
    let r₂ = next r₁ in
    let p = product_at (below r₁ 4) in
    let quantity : ℕ = 1 + below r₂ 6 in
    let sale =
      sell_stock-Balances order arrival p quantity (next r₂) (reserve_fifo (lots_of p i) quantity) i
        refl in
    record { accounts = omega (arith, sale.accounts) }
