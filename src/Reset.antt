-- ===== src/Reset.antt =====
-- The operator's reset of a workspace, scripts/reset_leanfm_workspace.py.
pub mod Tree
pub mod Plan
pub mod Apply
mod Files
mod Kept
mod Deepest
mod Guarded
mod Preserved
mod Accounts
mod Recorded
mod Examples
