-- ===== src/Work.antt =====
-- The work checkpoint store, scripts/chatui_work_state.py. `Types` has its data, `Action` the
-- monad of its methods, `Storage` the reading, writing and leasing methods of `WorkStore`;
-- `Submit`, `Cancel`, `Claim` and `Save` are the branches of the method `operate`, and `Operate` is
-- its dispatch. The other children prove.
--
-- The directory .leanfm/work is a table from the stems of its .json files, with the .prompt files
-- and active.json apart. It holds no symbolic link, so that `confined` does not raise there; every
-- file in it was written by this program. `execute` takes an exclusive lock round one operation,
-- so operations never interleave and a run of the program is a sequence of calls.
pub mod Types
pub mod Action
pub mod Storage
pub mod Submit
pub mod Cancel
pub mod Claim
pub mod Save
pub mod Operate
mod Fit
mod Keeps
pub mod Readers
pub mod Sound
pub mod Bounds
mod Inversion
pub mod Continue
pub mod Finish
pub mod Progress
pub mod Requests
mod Examples
