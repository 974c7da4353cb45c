-- ===== src/Deployments.antt =====
-- The runtimes of the example projects, projects/PaxosKV/source/runtime.py and
-- projects/GoServer/source/runtime.py, which own the processes that they start.
pub mod Types
pub mod Paxos
pub mod GoServer
mod Signals
mod Ends
mod Examples
