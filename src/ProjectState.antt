-- ===== src/ProjectState.antt =====
-- What a project's specification counts as, scripts/chatui_project_state.py.
pub mod Git
pub mod Current
mod Committed
mod Checked
mod Examples
