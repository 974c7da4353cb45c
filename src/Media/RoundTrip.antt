-- ===== src/Media/RoundTrip.antt =====
-- An upload and the resolution of its identifier.
use lean_fm.Common.{
  ℕ, ◌≤◌, String, ◌≡◌, refl, ap, true, false, some, [], ◌∷◌, ltb, ◌==◌, eq_refl, length, arith,
  subst, ◌∙◌,
}
use lean_fm.Common.Table.{lookup, lookup-insert_self}
use lean_fm.Media.Types.{Bytes, Manifest, Library, Folder, Store, ok}
use lean_fm.Media.Normalize.{max_preview}
use lean_fm.Media.Attachments.{
  upload, is_artifact_id, is_bounded_png, is_distinct, read_folder, read_all, resolve,
}
use lean_fm.Media.Limits.{IsSource, Uploads, upload-Uploads}

ltb-le : (a b : ℕ) → a ≤ b → ltb b a ≡ false
ltb-le a b h = ground arith

module _ (lib : Library) (s s' : Store) (id filename declared content : String) (m : Manifest)
    (u : Uploads lib s s' id filename declared content m) where
  found :
      lookup id s'.folders
      ≡ some (record { original = u.raw; preview = u.normal.preview; manifest = m })
  found = rw u.stored (lookup-insert_self id _ s.folders)

read-ok :
    (lib : Library) (f : Folder) (id : String)
    → lib.manifest_size f.manifest ≤ 4096
    → length f.preview ≤ max_preview
    → (f.manifest.artifact_id == id) ≡ true
    → (lib.sha256 f.preview == f.manifest.preview_sha256) ≡ true
    → is_bounded_png (lib.open_image f.preview) ≡ true
    → lib.verify f.preview ≡ true
    → read_folder lib id (some f)
      ≡ ok (record {
        content = lib.encode f.preview;
        media_type = "image/png";
        artifact_id = id;
        frame = f.manifest.frame;
      })
unfolding read_folder
read-ok lib f id short small named same bounded sound =
    rw
      (
        ltb-le (lib.manifest_size f.manifest) 4096 short,
        ltb-le (length f.preview) max_preview small,
        named,
        same,
        bounded,
        sound,
      )
      refl

-- What an upload stored under a well-formed identifier, resolving that identifier gives back: the
-- thumbnail of the uploaded bytes, or of the PNG rendering where they are an SVG drawing, under its
-- identifier, and the manifest has the digests of these bytes and of that thumbnail; where the
-- thumbnails that the library draws are sound PNG images of at most 2048 pixels and the manifest
-- has at most 4096 bytes.
pub resolve-upload :
    (lib : Library) (s s' : Store) (id filename declared content : String) (m : Manifest)
    → ((source : Bytes) → is_bounded_png (lib.open_image (lib.thumbnail source).0) ≡ true)
    → ((source : Bytes) → lib.verify (lib.thumbnail source).0 ≡ true)
    → is_artifact_id id ≡ true
    → lib.manifest_size m ≤ 4096
    → upload lib s id filename declared content ≡ (ok m, s')
    → (raw source : Bytes) × (lib.decode content ≡ some raw)
      × IsSource lib raw declared source
      × (m.source_sha256 ≡ lib.sha256 raw)
      × (m.preview_sha256 ≡ lib.sha256 (lib.thumbnail source).0)
      × (resolve lib s' (id ∷ [])
          ≡ ok (
              record {
                content = lib.encode (lib.thumbnail source).0;
                media_type = "image/png";
                artifact_id = id;
                frame = m.frame;
              }
              ∷ []))
unfolding resolve read_all is_distinct
resolve-upload lib s s' id filename declared content m bounded sound valid short e =
    let u = upload-Uploads lib s s' id filename declared content m e in
    let f : Folder = record { original = u.raw; preview = u.normal.preview; manifest = m } in
    let named : (m.artifact_id == id) ≡ true = rw u.made (eq_refl id) in
    let same : (lib.sha256 u.normal.preview == m.preview_sha256) ≡ true =
      rw u.made (eq_refl (lib.sha256 u.normal.preview)) in
    let answer =
      read-ok lib f id short u.small_preview named same (rw u.drawn (bounded u.source))
        (rw u.drawn (sound u.source)) in
    (
      u.raw,
      u.source,
      u.decoded,
      u.from_upload,
      ap (λ (x : Manifest). x.source_sha256) u.made,
      ap (λ (x : Manifest). x.preview_sha256) u.made ∙ ap lib.sha256 u.drawn,
      subst
          (λ (preview : Bytes).
            resolve lib s' (id ∷ [])
            ≡ ok (
                record {
                  content = lib.encode preview;
                  media_type = "image/png";
                  artifact_id = id;
                  frame = m.frame;
                }
                ∷ []))
          u.drawn (rw (valid, found lib s s' id filename declared content m u, answer) refl),
    )
