-- ===== src/Media.antt =====
-- Image attachments of a project, scripts/chatui_media.py: `Types` has the stored attachments and the
-- libraries that the script calls, `Normalize` the checks of an image, `Attachments` the operations
-- `upload` and `resolve`, `Drawing` the test of an SVG drawing. The other children prove.
--
-- Decoding, drawing and hashing are arguments. Files that another program left in the store, and
-- symbolic links, are the facts that a call finds.
pub mod Types
pub mod Normalize
pub mod Attachments
pub mod Drawing
mod Inert
pub mod Limits
pub mod RoundTrip
mod Examples
