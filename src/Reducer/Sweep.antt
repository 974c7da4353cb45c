-- ===== src/Reducer/Sweep.antt =====
-- The sweep over the starts and stops of the orders, in the order of time.
use lean_fm.Common.{
  ℕ, ◌+◌, ◌-◌, max, Bool, true, false, not, ◌&&◌, ◌||◌, List, [], ◌∷◌, ltb, eqb, if◌then◌else◌,
  get_or,
}
use lean_fm.Common.Table.{Table}
use lean_fm.Reducer.Fold.{Order, Stats}

-- A point of time at which an order starts (1) or stops (-1).
pub record Point : Type 0 where
  pub time : ℕ
  pub is_start : Bool

abbrev pub time_or_zero : Order → ℕ × ℕ
time_or_zero o = (get_or o.start 0, get_or o.stop 0)

-- `starts_stops`; every order of the loop has both times.
unfoldable pub points : Table Order → List Point
points [] = []
points ((session, o) ∷ rest) =
    record { time = (time_or_zero o).0; is_start = true }
    ∷ record { time = (time_or_zero o).1; is_start = false }
    ∷ points rest

-- Before another in the order of (time, delta): at one time, stops come first.
abbrev pub is_before : Point → Point → Bool
is_before p q = ltb p.time q.time || eqb p.time q.time && (not p.is_start || q.is_start)

unfoldable pub insert_point : Point → List Point → List Point
insert_point p [] = p ∷ []
insert_point p (q ∷ rest) =
    let later = insert_point p rest in if is_before p q then p ∷ q ∷ rest else q ∷ later

unfoldable pub sort_points : List Point → List Point
sort_points [] = []
sort_points (p ∷ rest) = insert_point p (sort_points rest)

-- `active` is the number of starts so far less that of stops, which may be below zero for a while;
-- a maximum that begins at zero is the same over the difference cut off at zero.
unfoldable pub sweep : List Point → ℕ → ℕ → ℕ → ℕ
sweep [] starts stops most = most
sweep (p ∷ rest) starts stops most =
    let up = sweep rest (starts + 1) stops (max most (starts + 1 - stops)) in
    let down = sweep rest starts (stops + 1) (max most (starts - (stops + 1))) in
    if p.is_start then up else down

unfoldable pub max_active : Stats → ℕ
unfolding points sort_points sweep
max_active s = sweep (sort_points (points s.orders)) 0 0 0
