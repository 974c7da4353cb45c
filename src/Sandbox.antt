-- ===== src/Sandbox.antt =====
-- The commands that the tools run in a bwrap sandbox: the worker of
-- scripts/chatui_application.py, the checks of scripts/chatui_command_runner.py and
-- scripts/chatui_specification.py, and the media tools scripts/chatui_gif.py and
-- scripts/chatui_mp4.py.
pub mod Flags
pub mod Commands
pub mod Checks
pub mod Recordings
mod Walls
mod Prepared
mod Receipts
mod Allowed
mod Published
mod Examples
