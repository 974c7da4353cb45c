-- ===== src/Media/Normalize.antt =====
-- `normalize`: the checks of an image and of its preview.
use lean_fm.Common.{
  ℕ, ◌*◌, String, Bool, false, not, ◌||◌, Option, none, some, ltb, if◌then◌else◌, ◌==◌, length,
}
use lean_fm.Media.Types.{
  Bytes, Picture, Normal, Library, Result, ok, failed, invalid_drawing, not_an_image,
  other_media_type, unreadable, too_many_pixels, oversized_preview,
}

abbrev pub max_pixels : ℕ
max_pixels = 16_000_000

abbrev pub max_preview : ℕ
max_preview = 4 * 1024 * 1024

-- MIMES
abbrev pub mime_of : String → Option String
mime_of format =
    if format == "PNG"
    then some "image/png"
    else if format == "JPEG"
    then some "image/jpeg"
    else if format == "GIF"
    then some "image/gif"
    else none

abbrev pub extension_of : String → String
extension_of media_type =
    if media_type == "image/png" then "png" else if media_type == "image/jpeg" then "jpg" else "gif"

abbrev pub same_type : Option String → String → Bool
same_type none declared = false
same_type (some media_type) declared = media_type == declared

-- The source of the preview and the file's extension.
abbrev pub probed : Library → Bytes → String → Option Picture → Result (Bytes × String)
probed lib raw declared none = failed not_an_image
probed lib raw declared (some p) =
    if not (same_type (mime_of p.format) declared)
    then failed other_media_type
    else if not (lib.verify raw)
    then failed unreadable
    else ok (raw, extension_of declared)

abbrev pub drawn : Option Bytes → Result (Bytes × String)
drawn none = failed invalid_drawing
drawn (some source) = ok (source, "svg")

unfoldable pub source_of : Library → Bytes → String → Result (Bytes × String)
source_of lib raw declared =
    if declared == "image/svg+xml"
    then drawn (lib.svg_png raw)
    else probed lib raw declared (lib.open_image raw)

abbrev pub is_too_large : Picture → Bool
is_too_large p = ltb 8192 p.width || ltb 8192 p.height || ltb max_pixels (p.width * p.height)

abbrev pub preview_of : Library → Bytes → String → String → Option Picture → Result Normal
preview_of lib source declared extension none = failed not_an_image
preview_of lib source declared extension (some p) =
    let (preview, width, height) = lib.thumbnail source in
    if is_too_large p
    then failed too_many_pixels
    else if ltb max_preview (length preview)
    then failed oversized_preview
    else ok (record {
      media_type = declared;
      extension = extension;
      preview = preview;
      width = width;
      height = height;
    })

abbrev pub normalized : Library → String → Result (Bytes × String) → Result Normal
normalized lib declared (failed why) = failed why
normalized lib declared (ok (source, extension)) =
    preview_of lib source declared extension (lib.open_image source)

unfoldable pub normalize : Library → Bytes → String → Result Normal
unfolding source_of
normalize lib raw declared = normalized lib declared (source_of lib raw declared)
