-- ===== src/Media/Types.antt =====
-- Attachments, and what the libraries do.
use lean_fm.Common.{ℕ, ◌+◌, String, Bool, Option, List, length, sum_by}
use lean_fm.Common.Table.{Table}

abbrev pub Bytes : Type 0
Bytes = List ℕ

-- An image that PIL opened.
pub record Picture : Type 0 where
  pub format : String
  pub width : ℕ
  pub height : ℕ

-- What `normalize` returns.
pub record Normal : Type 0 where
  pub media_type : String
  pub extension : String
  pub preview : Bytes
  pub width : ℕ
  pub height : ℕ

pub record Manifest : Type 0 where
  pub artifact_id : String
  pub name : String
  pub media_type : String
  pub bytes : ℕ
  pub width : ℕ
  pub height : ℕ
  pub extension : String
  pub preview_sha256 : String
  pub source_sha256 : String
  pub frame : String

-- `b64decode` with validation, `Image.open`, `verify`, `svg_png`, the transposed thumbnail of at most
-- 2048 pixels as a PNG with its width and height, SHA-256 in hexadecimal, `b64encode`, the printable
-- part of the first 200 characters of a name, and the size of a manifest's file.
pub record Library : Type 0 where
  pub decode : String → Option Bytes
  pub open_image : Bytes → Option Picture
  pub verify : Bytes → Bool
  pub svg_png : Bytes → Option Bytes
  pub thumbnail : Bytes → Bytes × ℕ × ℕ
  pub sha256 : Bytes → String
  pub encode : Bytes → String
  pub printable : String → String
  pub manifest_size : Manifest → ℕ

-- The folder of one attachment: its original, image.png and manifest.json.
pub record Folder : Type 0 where
  pub original : Bytes
  pub preview : Bytes
  pub manifest : Manifest

-- artifacts/attachments, with whether a symbolic link was found in it.
pub record Store : Type 0 where
  pub folders : Table Folder
  pub has_links : Bool

abbrev pub folder_size : Library → Folder → ℕ
folder_size lib f = length f.original + length f.preview + lib.manifest_size f.manifest

abbrev pub used : Library → Store → ℕ
used lib s = sum_by (λ (entry : String × Folder). folder_size lib entry.1) s.folders

pub data Reason : Type 0 where
  oversized_content invalid_content empty_or_oversized invalid_drawing not_an_image : Reason
  other_media_type unreadable too_many_pixels oversized_preview storage_full : Reason
  storage_limit invalid_ids not_found integrity_failed unbounded_preview : Reason

pub data Result (A : Type 0) : Type 0 where
  ok : A → Result A
  failed : Reason → Result A
