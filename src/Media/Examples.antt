-- ===== src/Media/Examples.antt =====
-- An upload with a library that draws one pixel.
use lean_fm.Common.{String, ◌≡◌, refl, Bool, true, none, some, [], ◌∷◌, arith}
use lean_fm.Common.Table.{insert}
use lean_fm.Media.Types.{Bytes, Manifest, Library, Store, ok}
use lean_fm.Media.Normalize.{normalize}
use lean_fm.Media.Attachments.{manifest_for, upload, resolve, is_artifact_id}
use lean_fm.Media.Limits.{IsSource}
use lean_fm.Media.RoundTrip.{resolve-upload}

abbrev library : Library
library = record {
  decode = λ s. some (1 ∷ 2 ∷ []);
  open_image = λ raw. some (record { format = "PNG"; width = 1; height = 1 });
  verify = λ raw. true;
  svg_png = λ raw. none;
  thumbnail = λ raw. (7 ∷ [], 1, 1);
  sha256 = λ raw. "digest";
  encode = λ raw. "Bw==";
  printable = λ s. s;
  manifest_size = λ m. 300;
}

abbrev id : String
id = "0123456789abcdef0123456789abcdef"

abbrev empty : Store
empty = record { folders = []; has_links = Bool.false }

abbrev manifest : Manifest
manifest = manifest_for library id "a.png" (1 ∷ 2 ∷ []) (record {
  media_type = "image/png";
  extension = "png";
  preview = 7 ∷ [];
  width = 1;
  height = 1;
})

abbrev after : Store
after = (upload library empty id "a.png" "image/png" "AQI=").1

uploaded : upload library empty id "a.png" "image/png" "AQI=" ≡ (ok manifest, after)
unfolding upload normalize insert
uploaded = refl

resolve-upload_example :
    (raw source : Bytes) × (library.decode "AQI=" ≡ some raw)
    × IsSource library raw "image/png" source
    × (manifest.source_sha256 ≡ library.sha256 raw)
    × (manifest.preview_sha256 ≡ library.sha256 (library.thumbnail source).0)
    × (resolve library after (id ∷ [])
        ≡ ok (
            record {
              content = library.encode (library.thumbnail source).0;
              media_type = "image/png";
              artifact_id = id;
              frame = manifest.frame;
            }
            ∷ []))
unfolding is_artifact_id
resolve-upload_example =
    resolve-upload library empty after id "a.png" "image/png" "AQI=" manifest (λ source. refl)
      (λ source. refl) refl (omega arith) uploaded
