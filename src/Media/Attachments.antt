-- ===== src/Media/Attachments.antt =====
-- `upload` and `resolve`.
use lean_fm.Common.{
  ℕ, ◌+◌, ◌*◌, ◌/◌, String, Bool, true, false, not, ◌&&◌, ◌||◌, Option, none, some, List, [], ◌∷◌,
  ltb, eqb, if◌then◌else◌, ◌==◌, str_len, all_chars, is_hex, length, any, all,
}
use lean_fm.Common.Table.{lookup, insert}
use lean_fm.Media.Types.{
  Bytes, Picture, Normal, Manifest, Library, Folder, Store, used, Result, ok, failed,
  oversized_content, invalid_content, empty_or_oversized, storage_full, storage_limit, invalid_ids,
  not_found, integrity_failed, unbounded_preview,
}
use lean_fm.Media.Normalize.{normalize, max_preview}

abbrev pub max_bytes : ℕ
max_bytes = 2 * 1024 * 1024

abbrev pub max_storage : ℕ
max_storage = 128 * 1024 * 1024

abbrev pub max_images : ℕ
max_images = 4

-- The children of the store are its folders and the file .lock; a folder has three files.
abbrev pub is_full : Store → Bool
is_full s = ltb 513 (length s.folders + 1) || ltb 1536 (3 * length s.folders) || s.has_links

abbrev pub manifest_for : Library → String → String → Bytes → Normal → Manifest
manifest_for lib artifact_id filename raw n = record {
  artifact_id = artifact_id;
  name = lib.printable filename;
  media_type = n.media_type;
  bytes = length raw;
  width = n.width;
  height = n.height;
  extension = n.extension;
  preview_sha256 = lib.sha256 n.preview;
  source_sha256 = lib.sha256 raw;
  frame = if n.media_type == "image/gif" then "first" else "still";
}

-- The part of `upload` under the lock.
unfoldable pub place : Library → Store → String → String → Bytes → Normal → Result Manifest × Store
place lib s artifact_id filename raw n =
    let manifest = manifest_for lib artifact_id filename raw n in
    let folder : Folder = record { original = raw; preview = n.preview; manifest = manifest } in
    if is_full s
    then (failed storage_full, s)
    else if ltb max_storage (used lib s + length raw + length n.preview + 4096)
    then (failed storage_limit, s)
    else (ok manifest, record s { folders = insert artifact_id folder s.folders })

abbrev pub place_normal :
    Library → Store → String → String → Bytes → Result Normal → Result Manifest × Store
place_normal lib s artifact_id filename raw (failed why) = (failed why, s)
place_normal lib s artifact_id filename raw (ok n) = place lib s artifact_id filename raw n

abbrev pub take_content :
    Library → Store → String → String → String → Option Bytes → Result Manifest × Store
take_content lib s artifact_id filename declared none = (failed invalid_content, s)
take_content lib s artifact_id filename declared (some raw) =
    if eqb (length raw) 0 || ltb max_bytes (length raw)
    then (failed empty_or_oversized, s)
    else place_normal lib s artifact_id filename raw (normalize lib raw declared)

-- `artifact_id` is the value of `uuid.uuid4().hex`.
unfoldable pub upload :
    Library → Store → String → String → String → String → Result Manifest × Store
unfolding place
upload lib s artifact_id filename declared content =
    if ltb ((max_bytes + 2) / 3 * 4) (str_len content)
    then (failed oversized_content, s)
    else take_content lib s artifact_id filename declared (lib.decode content)

-- One image that `resolve` gives back.
pub record Resolved : Type 0 where
  pub content : String
  pub media_type : String
  pub artifact_id : String
  pub frame : String

-- ID
unfoldable pub is_artifact_id : String → Bool
is_artifact_id s = eqb (str_len s) 32 && all_chars is_hex s

unfoldable pub is_distinct : List String → Bool
is_distinct [] = true
is_distinct (id ∷ rest) =
    let others = is_distinct rest in not (any (λ other. other == id) rest) && others

abbrev pub is_bounded_png : Option Picture → Bool
is_bounded_png none = false
is_bounded_png (some p) = p.format == "PNG" && not (ltb 2048 p.width) && not (ltb 2048 p.height)

-- The checks of one stored attachment.
unfoldable pub read_folder : Library → String → Option Folder → Result Resolved
read_folder lib id none = failed not_found
read_folder lib id (some f) =
    if ltb 4096 (lib.manifest_size f.manifest) || ltb max_preview (length f.preview)
    then failed not_found
    else if not (f.manifest.artifact_id == id)
        || not (lib.sha256 f.preview == f.manifest.preview_sha256)
    then failed integrity_failed
    else if not (is_bounded_png (lib.open_image f.preview)) || not (lib.verify f.preview)
    then failed unbounded_preview
    else ok (record {
      content = lib.encode f.preview;
      media_type = "image/png";
      artifact_id = id;
      frame = f.manifest.frame;
    })

abbrev pub add_image : Result Resolved → Result (List Resolved) → Result (List Resolved)
add_image (failed why) rest = failed why
add_image (ok r) (failed why) = failed why
add_image (ok r) (ok rest) = ok (r ∷ rest)

unfoldable pub read_all : Library → Store → List String → Result (List Resolved)
unfolding read_folder
read_all lib s [] = ok []
read_all lib s (id ∷ rest) =
    add_image (read_folder lib id (lookup id s.folders)) (read_all lib s rest)

unfoldable pub resolve : Library → Store → List String → Result (List Resolved)
unfolding read_all is_artifact_id is_distinct
resolve lib s ids =
    if ltb max_images (length ids) || not (all is_artifact_id ids) || not (is_distinct ids)
    then failed invalid_ids
    else read_all lib s ids
