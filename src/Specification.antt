-- ===== src/Specification.antt =====
-- The check of a project's specification, `check` of scripts/chatui_specification.py: `Check` has the
-- order of its tests and what it writes. `Promotion` proves.
--
-- The compiler's runs, the digests of the inputs before and after them, and the facts that the call
-- asks the file system for are arguments.
pub mod Check
pub mod Promotion
mod Examples
