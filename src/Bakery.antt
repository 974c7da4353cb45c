-- ===== src/Bakery.antt =====
-- The bakery simulation, scripts/generate_bakery_events.py: `Types` has its events and lots, `Stock`
-- the generator of random numbers, `reserve_fifo` and `expire_lots`, `Day` the events of a day, and
-- `Run` the loop of `main`. The other children prove.
--
-- An event's id is its session and its step, and a session its parts: the texts that Python formats
-- from them are told apart by these. Times are milliseconds. Writing the events out is not modelled.
pub mod Types
pub mod Stock
pub mod Fifo
pub mod Day
pub mod Sale
pub mod Run
pub mod Ledger
pub mod Supply
pub mod Balance
mod Examples
