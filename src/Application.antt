-- ===== src/Application.antt =====
-- The launching of a project's application, scripts/chatui_application.py: `Types` has the record
-- .leanfm/application/state.json and what a call observes outside, `Lifecycle` the operations
-- `status`, `stop` and `start`, `Supervisor` the writes of `supervise`, `Supervise` its loops,
-- `Resources` the budget that they check, `Worker` the process in the sandbox, `Identity` the tests
-- of a record, a process and an answer, `Journal` the events, `Commands` the dispatch of `main`, and
-- `System` all of them as steps in any order. The other children prove.
--
-- A call takes the record and gives back the record that it leaves, on an error too. What it learns
-- of processes, of the application's socket and of the project's files are arguments.
pub mod Types
pub mod Lifecycle
pub mod Supervisor
pub mod Supervise
pub mod Resources
pub mod Worker
pub mod Journal
mod Recorded
mod Forwarding
pub mod Identity
mod Instances
mod Readiness
mod Missing
mod Descendants
mod System
mod Kills
mod Interleaving
pub mod Commands
mod Leaves
pub mod Access
mod Examples
mod Scenarios
