-- ===== src/Bakery/Fifo.antt =====
-- `reserve_fifo` against a description that sells one unit at a time from the oldest lot.
use lean_fm.Common.{
  ◌^◌, ◌*◌, ◌%◌, ◌/◌, ℕ, zero, suc, ◌+◌, ◌-◌, ◌≤◌, ◌<◌, ◌≡◌, refl, sym, min, Option, none, some,
  List, [], ◌∷◌, ltb, leb, eqb, if◌then◌else◌, sum_by, arith, Bool-cases, inl, inr,
}
use lean_fm.Bakery.Types.{Batch, Lot}
use lean_fm.Bakery.Stock.{units_in, fill, drop_empty, reserve_fifo, below, next}

abbrev pub taken_units : List (Batch × ℕ) → ℕ
taken_units = sum_by (λ (a : Batch × ℕ). a.1)

fill_exact :
    (lots : List Lot) (r : ℕ)
    → r ≤ units_in lots
    → (taken_units (fill lots r).0 ≡ r) × (units_in (fill lots r).1 + r ≡ units_in lots)
unfolding fill
fill_exact [] r h = omega arith
fill_exact (lot ∷ lots) r h = ground (arith, fill_exact lots (r - min lot.units r))

units_in-drop_empty : (lots : List Lot) → units_in (drop_empty lots) ≡ units_in lots
unfolding drop_empty
units_in-drop_empty [] = refl
units_in-drop_empty (lot ∷ lots) = ground (arith, units_in-drop_empty lots)

-- What a reservation may answer: nothing, from a stock with too few units, or an allocation of
-- exactly the units asked for, with a stock that has exactly those units less.
abbrev pub Reserves : List Lot → ℕ → Option (List (Batch × ℕ) × List Lot) → Type 0
Reserves lots quantity none = units_in lots < quantity
Reserves lots quantity (some (taken, left)) =
    (taken_units taken ≡ quantity) × (units_in left + quantity ≡ units_in lots)

-- A reservation is refused only if the stock holds fewer units than asked for; otherwise it
-- allocates exactly that many units and takes exactly those out of the stock.
pub reserve_exact :
    (lots : List Lot) (quantity : ℕ) → Reserves lots quantity (reserve_fifo lots quantity)
unfolding reserve_fifo
reserve_exact lots quantity = elim (Bool-cases (ltb (units_in lots) quantity)) [
  | inl few ↦ rw few (ground arith)
  | inr enough ↦ rw enough (
      omega (
        arith,
        fill_exact lots quantity (ground arith),
        units_in-drop_empty (fill lots quantity).1,
      ))
]

-- One unit is sold from the oldest lot that has any.
abbrev pub sell_one : List Lot → List Lot
sell_one [] = []
sell_one (lot ∷ lots) =
    if eqb lot.units 0 then lot ∷ sell_one lots else record lot { units = lot.units - 1 } ∷ lots

pub sell : ℕ → List Lot → List Lot
sell zero lots = lots
sell (suc n) lots = sell n (sell_one lots)

sell-within :
    (n : ℕ) (lot : Lot) (lots : List Lot)
    → n ≤ lot.units
    → sell n (lot ∷ lots) ≡ record lot { units = lot.units - n } ∷ lots
unfolding sell
sell-within zero lot lots h = ground arith
sell-within (suc n) lot lots h =
    ground (arith, sell-within n (record lot { units = lot.units - 1 }) lots)

sell-past :
    (n : ℕ) (lot : Lot) (lots : List Lot)
    → lot.units ≤ n
    → sell n (lot ∷ lots) ≡ record lot { units = 0 } ∷ sell (n - lot.units) lots
unfolding sell
sell-past zero lot lots h =
    let none_left : 0 - lot.units ≡ 0 = omega arith in rw none_left (ground arith)
sell-past (suc n) lot lots h = elim (Bool-cases (eqb lot.units 0)) [
  | inl empty ↦
      let more : suc n - lot.units ≡ suc (n - lot.units) = ground arith in
      rw (more, empty) (sell-past n lot (sell_one lots) (ground arith))
  | inr some_left ↦
      let less : suc n - lot.units ≡ n - (lot.units - 1) = ground arith in
      rw (less, some_left) (sell-past n (record lot { units = lot.units - 1 }) lots (ground arith))
]

sell-nil : (n : ℕ) → sell n [] ≡ []
unfolding sell
sell-nil zero = refl
sell-nil (suc n) = sell-nil n

fill-eq-sell : (lots : List Lot) (r : ℕ) → r ≤ units_in lots → (fill lots r).1 ≡ sell r lots
unfolding fill
fill-eq-sell [] r h = sym (sell-nil r)
fill-eq-sell (lot ∷ lots) r h = elim (Bool-cases (leb r lot.units)) [
  | inl enough ↦ ground (arith, sell-within r lot lots)
  | inr short ↦ ground (arith, sell-past r lot lots, fill-eq-sell lots (r - min lot.units r))
]

-- A successful reservation leaves the stock that selling its units one by one leaves, each from the
-- oldest lot with units, without the empty lots in front.
pub reserve_oldest_first :
    (lots : List Lot) (quantity : ℕ) (taken : List (Batch × ℕ)) (left : List Lot)
    → reserve_fifo lots quantity ≡ some (taken, left)
    → left ≡ drop_empty (sell quantity lots)
unfolding reserve_fifo
reserve_oldest_first lots quantity taken left h = ground (arith, fill-eq-sell lots quantity)

mul_mono : (a b c : ℕ) → a ≤ b → a * c ≤ b * c
mul_mono a b c h = grind arith

scaled-lt : (r bound : ℕ) → r < 2 ^ 32 → 0 < bound → (r * bound) / 2 ^ 32 < bound
scaled-lt r bound h p = omega (arith, mul_mono (r + 1) (2 ^ 32) bound (omega arith))

-- `below` stays under its bound, whatever the generator's state, and the state stays a 32-bit word.
pub below_bounds :
    (state bound : ℕ) → 0 < bound → (below (next state) bound < bound) × (next state < 2 ^ 32)
unfolding below next
below_bounds state bound h =
    (scaled-lt ((1664525 * state + 1013904223) % 2 ^ 32) bound (omega arith) h, omega arith)
