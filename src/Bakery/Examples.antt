-- ===== src/Bakery/Examples.antt =====
-- Small stocks and short runs.
use lean_fm.Common.{ℕ, ◌+◌, ◌≡◌, refl, List, [], ◌∷◌}
use lean_fm.Bakery.Types.{baguette, Lot}
use lean_fm.Bakery.Stock.{reserve_fifo, drop_empty}
use lean_fm.Bakery.Fifo.{reserve_oldest_first, sell}
use lean_fm.Bakery.Run.{generate}
use lean_fm.Bakery.Ledger.{baked_in, sold_in, donated_in, stock}
use lean_fm.Bakery.Balance.{generate_balances}

abbrev lot : ℕ → ℕ → Lot
lot day units = record {
  batch = record { day = day; product = baguette };
  product = baguette;
  baked_day = day;
  freshness_days = 2;
  unit_cost_cents = 115;
  units = units;
}

abbrev lots : List Lot
lots = lot 0 2 ∷ lot 1 5 ∷ []

reserve_oldest_first_example : lot 1 3 ∷ [] ≡ drop_empty (sell 4 lots)
unfolding reserve_fifo
reserve_oldest_first_example =
    reserve_oldest_first lots 4
      ((record { day = 0; product = baguette }, 2)
        ∷ (record { day = 1; product = baguette }, 2)
        ∷ [])
      (lot 1 3 ∷ []) refl

generate_balances_example :
    let (left, events, _) = generate 3 2 20260911 in
    baked_in events ≡ sold_in events + donated_in events + stock left
generate_balances_example = generate_balances 3 2 20260911
