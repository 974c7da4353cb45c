-- ===== src/Paths.antt =====
-- Paths that model tools may write: `confined` of scripts/chatui_specification.py, `authorize_path`
-- of scripts/chatui_project_state.py, and the patches of scripts/chatui_patch.py.
--
-- A relative path is its parts, as pathlib splits it. Which of its prefixes is a symbolic link, and
-- what git prints and returns, are arguments.
pub mod Confined
pub mod Patch
pub mod Protected
mod Examples
