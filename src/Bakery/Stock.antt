-- ===== src/Bakery/Stock.antt =====
-- `Lcg`, `expire_lots` and `reserve_fifo`.
use lean_fm.Common.{
  ℕ, ◌+◌, ◌-◌, ◌*◌, ◌/◌, ◌%◌, ◌^◌, min, Bool, Option, none, some, List, [], ◌∷◌, ◌++◌, ltb, leb,
  eqb, if◌then◌else◌, sum_by,
}
use lean_fm.Bakery.Types.{
  day_ms, minute_ms, Batch, Lot, charity, transfer, receipt, Event, Inventory, charity_transfer,
  donation_receipt, donated,
}

-- `Lcg.next`: the new state, which is also the result
unfoldable pub next : ℕ → ℕ
next state = (1664525 * state + 1013904223) % 2 ^ 32

-- `Lcg.below`, from the state that `next` gave
unfoldable pub below : ℕ → ℕ → ℕ
below state bound = (state * bound) / 2 ^ 32

-- Charity takes a lot that has units left: two events, from four random numbers.
unfoldable pub donate : ℕ → Lot → ℕ → List Event
donate day lot rng =
    let r₁ = next rng in
    let r₂ = next r₁ in
    let r₃ = next r₂ in
    let at = day * day_ms + 4 * 60 * minute_ms in
    let value = donated lot.batch lot.units (lot.units * lot.unit_cost_cents) in
    record {
      id = record { session = charity lot.batch; step = transfer };
      prior = [];
      kind = charity_transfer;
      time_at = at;
      bytes = 64 + below r₁ 20;
      values = value;
    }
    ∷ record {
      id = record { session = charity lot.batch; step = receipt };
      prior = record { session = charity lot.batch; step = transfer } ∷ [];
      kind = donation_receipt;
      time_at = at + 250 + below r₂ 751;
      bytes = 52 + below r₃ 18;
      values = value;
    }
    ∷ []

-- The state after the random numbers of one donation.
abbrev pub after_donation : Lot → ℕ → ℕ
after_donation lot rng = if eqb lot.units 0 then rng else next (next (next rng))

abbrev pub donation : ℕ → Lot → ℕ → List Event
donation day lot rng = if eqb lot.units 0 then [] else donate day lot rng

abbrev pub is_expired : ℕ → Lot → Bool
is_expired day lot = leb (lot.baked_day + lot.freshness_days) day

-- The `while` loop of `expire_lots` for one product: the lots left, the events and the generator.
unfoldable pub expire : ℕ → List Lot → ℕ → List Lot × List Event × ℕ
expire day [] rng = ([], [], rng)
expire day (lot ∷ lots) rng =
    let (left, events, rng') = expire day lots (after_donation lot rng) in
    if is_expired day lot
    then (left, donation day lot rng ++ events, rng')
    else (lot ∷ lots, [], rng)

unfoldable pub expire_lots : ℕ → Inventory → ℕ → Inventory × List Event × ℕ
expire_lots day i rng =
    let (b, e₁, r₁) = expire day i.baguettes rng in
    let (c, e₂, r₂) = expire day i.croissants r₁ in
    let (y, e₃, r₃) = expire day i.ryes r₂ in
    let (s, e₄, r₄) = expire day i.sourdoughs r₃ in
    (
      record { baguettes = b; croissants = c; ryes = y; sourdoughs = s },
      e₁ ++ (e₂ ++ (e₃ ++ e₄)),
      r₄,
    )

abbrev pub units_in : List Lot → ℕ
units_in = sum_by (λ lot. lot.units)

-- The loop that allocates, and the lots as they are after the units taken.
unfoldable pub fill : List Lot → ℕ → List (Batch × ℕ) × List Lot
fill [] remaining = ([], [])
fill (lot ∷ lots) remaining =
    let take : ℕ = min lot.units remaining in
    let (taken, left) = fill lots (remaining - take) in
    let taken' = if eqb (remaining - take) 0 then [] else taken in
    let left' = if eqb (remaining - take) 0 then lots else left in
    (
      if eqb take 0 then taken' else (lot.batch, take) ∷ taken',
      record lot { units = lot.units - take } ∷ left',
    )

-- `while lots and not lots[0].units: lots.popleft()`
unfoldable pub drop_empty : List Lot → List Lot
drop_empty [] = []
drop_empty (lot ∷ lots) = if eqb lot.units 0 then drop_empty lots else lot ∷ lots

-- The allocation and the lots left; `none` where the stock is too small and stays as it is.
unfoldable pub reserve_fifo : List Lot → ℕ → Option (List (Batch × ℕ) × List Lot)
unfolding fill drop_empty
reserve_fifo lots quantity =
    if ltb (units_in lots) quantity
    then none
    else let (taken, left) = fill lots quantity in some (taken, drop_empty left)
