-- ===== src/Workspace.antt =====
-- The directory of shared projects, scripts/chatui_workspace.py: `Names` has the rules on names,
-- `Projects` the reading of manifests, `Reserve` the making of a directory. The other children prove.
--
-- What a call finds under projects/ is a list of children with the facts that the program asks the
-- file system for; the JSON of a manifest is its entries that the program looks at.
pub mod Names
pub mod Projects
pub mod Reserve
pub mod Stems
pub mod Fresh
pub mod Listing
mod Examples
