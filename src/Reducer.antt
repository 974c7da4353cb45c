-- ===== src/Reducer.antt =====
-- The reducer of the bakery's events, scripts/reduce_bakery_events.py: `Fold` has the loop of `main`
-- over the lines of the input, `Sweep` its count of the orders that are open at once. The other
-- children prove.
--
-- A line is the entries that the loop reads, with the defaults of its `get` calls. Ratios, the
-- differences of the daily rows and the writing of the results are not modelled.
pub mod Fold
pub mod Sweep
pub mod Totals
pub mod Concurrency
pub mod Peak
mod Examples
