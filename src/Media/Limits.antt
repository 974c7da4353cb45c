-- ===== src/Media/Limits.antt =====
-- What a successful upload has checked, and the bound on the store.
use lean_fm.Common.{
  ℕ, ◌+◌, ◌≤◌, String, ◌≡◌, refl, sym, ap, ◌∙◌, Bool, true, false, ◌||◌, Option, none, some, [],
  ◌∷◌, ltb, eqb, if◌then◌else◌, ◌==◌, length, sum_by, arith, ◌⊎◌, inl, inr, ◌≢◌, not, eq_iff,
}
use lean_fm.Common.Table.{Table, lookup, insert}
use lean_fm.Media.Types.{
  Bytes, Picture, Normal, Manifest, Library, Folder, Store, folder_size, used, Result, ok, failed,
  oversized_content, empty_or_oversized, storage_full, storage_limit, too_many_pixels,
  oversized_preview, other_media_type, unreadable,
}
use lean_fm.Media.Normalize.{
  mime_of, same_type, extension_of, probed, normalize, normalized, source_of, preview_of,
  max_preview, is_too_large,
}
use lean_fm.Media.Normalize
use lean_fm.Media.Attachments.{
  max_bytes, max_storage, is_full, manifest_for, place, place_normal, take_content, upload,
}

-- What the preview is drawn from: the uploaded bytes, or, of an SVG drawing, its PNG rendering.
abbrev pub IsSource : Library → Bytes → String → Bytes → Type 0
IsSource lib raw declared source =
    ((declared ≢ "image/svg+xml") × (source ≡ raw))
    ⊎ ((declared ≡ "image/svg+xml") × (lib.svg_png raw ≡ some source))

-- What stands behind an upload that returns.
pub record Uploads (lib : Library) (s s' : Store) (id filename declared content : String)
    (m : Manifest) : Type 0 where
  pub raw : Bytes
  pub decoded : lib.decode content ≡ some raw
  pub normal : Normal
  pub made : m ≡ manifest_for lib id filename raw normal
  pub small : length raw ≤ max_bytes
  pub small_preview : length normal.preview ≤ max_preview
  pub source : Bytes
  pub from_upload : IsSource lib raw declared source
  pub drawn : normal.preview ≡ (lib.thumbnail source).0
  pub room : used lib s + length raw + length normal.preview + 4096 ≤ max_storage
  pub stored :
      s'.folders
      ≡ insert id (record { original = raw; preview = normal.preview; manifest = m }) s.folders

record Normalized (lib : Library) (declared : String) (raw : Bytes) (n : Normal) : Type 0 where
  small_preview : length n.preview ≤ max_preview
  source : Bytes
  from_upload : IsSource lib raw declared source
  drawn : n.preview ≡ (lib.thumbnail source).0

normal-checks :
    (large big : Bool) (x n : Normal)
    → (if large then failed too_many_pixels else if big then failed oversized_preview else ok x)
      ≡ ok n
    → (big ≡ false) × (x ≡ n)
normal-checks large big x n e = ground arith

preview-Normalized :
    (lib : Library) (raw source : Bytes) (declared extension : String) (o : Option Picture)
    (n : Normal)
    → IsSource lib raw declared source
    → preview_of lib source declared extension o ≡ ok n
    → Normalized lib declared raw n
preview-Normalized lib raw source declared extension none n known e = absurd cc
preview-Normalized lib raw source declared extension (some p) n known e =
    let (fits, same) =
      normal-checks (is_too_large p) (ltb max_preview (length (lib.thumbnail source).0)) _ n e in
    let drawn : n.preview ≡ (lib.thumbnail source).0 = sym (ap (λ (x : Normal). x.preview) same) in
    record {
      small_preview = rw drawn (ground arith);
      source = source;
      from_upload = known;
      drawn = drawn;
    }

probed-source :
    (lib : Library) (raw source : Bytes) (declared extension : String) (o : Option Picture)
    → probed lib raw declared o ≡ ok (source, extension)
    → source ≡ raw
probed-source lib raw source declared extension none e = absurd cc
probed-source lib raw source declared extension (some p) e =
    tests_lem (same_type (mime_of p.format) declared) (lib.verify raw) e
  where
    tests_lem :
        (a b : Bool)
        → ◌≡◌ {A = Result (Bytes × String)}
            (if not a
              then failed other_media_type
              else if not b
              then failed unreadable
              else ok (raw, extension_of declared))
            (ok (source, extension))
        → source ≡ raw
    tests_lem a b h = ground arith

drawn-source :
    (o : Option Bytes) (source : Bytes) (extension : String)
    → Normalize.drawn o ≡ ok (source, extension)
    → o ≡ some source
drawn-source none source extension e = absurd cc
drawn-source (some found) source extension e = cc

source_of-IsSource :
    (lib : Library) (raw source : Bytes) (declared extension : String)
    → source_of lib raw declared ≡ ok (source, extension)
    → IsSource lib raw declared source
unfolding source_of
source_of-IsSource lib raw source declared extension e = go (declared == "image/svg+xml") refl e
  where
    go :
        (b : Bool)
        → (declared == "image/svg+xml") ≡ b
        → (if b
            then Normalize.drawn (lib.svg_png raw)
            else probed lib raw declared (lib.open_image raw))
          ≡ ok (source, extension)
        → IsSource lib raw declared source
    go true same h = inr (
      (eq_iff declared "image/svg+xml").0 same,
      drawn-source (lib.svg_png raw) source extension h,
    )
    go false other h = inl (
      (λ same. let text = (eq_iff declared "image/svg+xml").1 same in cc),
      probed-source lib raw source declared extension (lib.open_image raw) h,
    )

normalized-Normalized :
    (lib : Library) (raw : Bytes) (declared : String) (r : Result (Bytes × String)) (n : Normal)
    → source_of lib raw declared ≡ r
    → normalized lib declared r ≡ ok n
    → Normalized lib declared raw n
normalized-Normalized lib raw declared (failed why) n from e = absurd cc
normalized-Normalized lib raw declared (ok (source, extension)) n from e =
    preview-Normalized lib raw source declared extension (lib.open_image source) n
      (source_of-IsSource lib raw source declared extension from) e

place-checks :
    (full : Bool) (size : ℕ) (s s' : Store) (after : Store) (x m : Manifest)
    → ◌≡◌ {A = Result Manifest × Store}
        (if full
          then (failed storage_full, s)
          else if ltb max_storage size
          then (failed storage_limit, s)
          else (ok x, after))
        (ok m, s')
    → (size ≤ max_storage) × (x ≡ m) × (after ≡ s')
place-checks full size s s' after x m e = ground arith

take-Uploads :
    (lib : Library) (s s' : Store) (id filename declared content : String) (raw : Bytes)
    (r : Result Normal) (m : Manifest)
    → lib.decode content ≡ some raw
    → normalize lib raw declared ≡ r
    → length raw ≤ max_bytes
    → place_normal lib s id filename raw r ≡ (ok m, s')
    → Uploads lib s s' id filename declared content m
unfolding place normalize
take-Uploads lib s s' id filename declared content raw (failed why) m given checked small e =
    absurd cc
take-Uploads lib s s' id filename declared content raw (ok n) m given checked small e =
    let (room, made, left) =
      place-checks (is_full s) (used lib s + length raw + length n.preview + 4096) s s' _ _ m e in
    let normal =
      normalized-Normalized lib raw declared (source_of lib raw declared) n refl checked in
    record {
      raw = raw;
      decoded = given;
      normal = n;
      made = sym made;
      small = small;
      small_preview = normal.small_preview;
      source = normal.source;
      from_upload = normal.from_upload;
      drawn = normal.drawn;
      room = room;
      stored = rw (← left, made) refl;
    }

content-checks :
    (small : Bool) (size : ℕ) (s s' : Store) (x : Result Manifest × Store) (m : Manifest)
    → (if small || ltb max_bytes size then (failed empty_or_oversized, s) else x) ≡ (ok m, s')
    → (size ≤ max_bytes) × (x ≡ (ok m, s'))
content-checks small size s s' x m e =
    let (fits, same) = not_failed (small || ltb max_bytes size) e in (ground arith, same)
  where
    not_failed :
        (b : Bool)
        → (if b then (failed empty_or_oversized, s) else x) ≡ (ok m, s')
        → (b ≡ false) × (x ≡ (ok m, s'))
    not_failed true h = absurd cc
    not_failed false h = (refl, h)

lookup-new :
    (b : Bool) (old : Folder) (o : Option Folder)
    → (if b then some old else o) ≡ none
    → (b ≡ false) × (o ≡ none)
lookup-new b old o h = ground arith

pub upload-Uploads :
    (lib : Library) (s s' : Store) (id filename declared content : String) (m : Manifest)
    → upload lib s id filename declared content ≡ (ok m, s')
    → Uploads lib s s' id filename declared content m
unfolding upload
upload-Uploads lib s s' id filename declared content m e =
    taken (lib.decode content) refl (size-passed _ _ e)
  where
    size-passed :
        (large : Bool) (x : Result Manifest × Store)
        → (if large then (failed oversized_content, s) else x) ≡ (ok m, s')
        → x ≡ (ok m, s')
    size-passed true x h = absurd (cc)
    size-passed false x h = h

    taken :
        (o : Option Bytes)
        → lib.decode content ≡ o
        → take_content lib s id filename declared o ≡ (ok m, s')
        → Uploads lib s s' id filename declared content m
    taken none given h = absurd cc
    taken (some raw) given h =
        let (fits, placed) = content-checks (eqb (length raw) 0) (length raw) s s' _ m h in
        take-Uploads lib s s' id filename declared content raw (normalize lib raw declared) m given
          refl fits placed

sum-insert_new :
    (size : Folder → ℕ) (id : String) (f : Folder) (t : Table Folder)
    → lookup id t ≡ none
    → sum_by (λ (entry : String × Folder). size entry.1) (insert id f t)
      ≡ sum_by (λ (entry : String × Folder). size entry.1) t + size f
unfolding lookup insert
sum-insert_new size id f [] h = omega arith
sum-insert_new size id f ((name, old) ∷ rest) h =
    let (other, new) = lookup-new (name == id) old (lookup id rest) h in
    rw other (omega (arith, sum-insert_new size id f rest new))

-- An upload that returns, under an identifier that is new and with a manifest of at most 4096 bytes,
-- leaves the attachments of the project within 128 MiB, its own original within 2 MiB and its
-- preview within 4 MiB.
pub upload_bounds :
    (lib : Library) (s s' : Store) (id filename declared content : String) (m : Manifest)
    → upload lib s id filename declared content ≡ (ok m, s')
    → lookup id s.folders ≡ none
    → lib.manifest_size m ≤ 4096
    → (used lib s' ≤ max_storage) × (m.bytes ≤ max_bytes)
upload_bounds lib s s' id filename declared content m e new short =
    let u = upload-Uploads lib s s' id filename declared content m e in
    let f : Folder = record { original = u.raw; preview = u.normal.preview; manifest = m } in
    let total = sum-insert_new (folder_size lib) id f s.folders new in
    let size : used lib s' ≡ used lib s + folder_size lib f =
      ap (λ (t : Table Folder). sum_by (λ (entry : String × Folder). folder_size lib entry.1) t)
        u.stored
      ∙ total in
    (omega (arith, size, u.room), rw u.made u.small)
