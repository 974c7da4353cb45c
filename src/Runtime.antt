-- ===== src/Runtime.antt =====
-- Launch evidence of a project's application, scripts/chatui_runtime.py: `Contract` has `contract` and
-- `status`, `Probe` the order of checks in `probe`. The other children prove.
--
-- What the files hold, what the application answers and which sockets listen are arguments; ending
-- the process group is not modelled.
pub mod Contract
pub mod Probe
pub mod Evidence
mod Examples
