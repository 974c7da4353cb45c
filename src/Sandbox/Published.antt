-- ===== src/Sandbox/Published.antt =====
-- What the media tools put in the place of an output.
use lean_fm.Common.{
  ℕ, Bool, true, false, not, ◌&&◌, ◌||◌, Option, none, some, [], ◌≡◌, ap, arith, eq_iff,
  if◌then◌else◌, ◌==◌, ltb, leb, max, ◌≤◌, is_some, ends_with,
}
use lean_fm.Paths.Confined.{Parts, confined, join, is_reserved, authorize_path}
use lean_fm.Paths.Protected.{IsPlain, authorize_lem}
use lean_fm.Sandbox.Recordings.{
  Candidate, Image, GifRun, Mp4Run, is_bounded_image, is_small, gif, mp4,
}

-- A path that the project may write, and that no link has come to stand in during the run.
abbrev pub IsTarget : (Parts → Bool) → (Parts → Bool) → Parts → Parts → Type 0
IsTarget is_link is_link_after output path =
    (path ≡ output)
    × IsPlain is_link [] output
    × (is_reserved (join output) ≡ false)
    × (is_some (confined is_link_after output) ≡ true)

abbrev pub IsSmallFile : ℕ → Candidate → Type 0
IsSmallFile bound c = (c.is_link ≡ false) × (c.is_file ≡ true) × (c.size ≤ bound)

abbrev pub IsAnimation : Option Image → Type 0
IsAnimation none = ⊥
IsAnimation (some i) =
    (i.format ≡ "GIF") × (i.width ≤ 4096) × (i.height ≤ 4096) × (2 ≤ i.frames) × (i.frames ≤ 500)

image_parts :
    (gif_format : Bool) (width height frames : ℕ)
    → (gif_format && leb (max width height) 4096 && leb 2 frames && leb frames 500) ≡ true
    → (gif_format ≡ true) × (width ≤ 4096) × (height ≤ 4096) × (2 ≤ frames) × (frames ≤ 500)
image_parts gif_format width height frames h = ground arith

image_lem : (o : Option Image) → is_bounded_image o ≡ true → IsAnimation o
image_lem none h = absurd cc
image_lem (some i) h =
    let bounds = image_parts (i.format == "GIF") i.width i.height i.frames h in
    ((eq_iff i.format "GIF").0 bounds.0, bounds.1, bounds.2, bounds.3, bounds.4)

chain_lem :
    (a b c d e : Bool) (path found : Parts)
    → (if a
        then none
        else if b
        then none
        else if c
        then none
        else if d
        then none
        else if e
        then some path
        else none)
      ≡ some found
    → (a ≡ false) × (b ≡ false) × (c ≡ false) × (d ≡ false) × (e ≡ true) × (path ≡ found)
chain_lem a b c d e path found h = ground arith

replace_lem :
    (unread a b c d e : Bool) (o : Option Parts) (found : Parts)
    → (if unread then none else elim o [
      | none ↦ none
      | some path ↦
          if a
          then none
          else if b
          then none
          else if c
          then none
          else if d
          then none
          else if e
          then some path
          else none
    ])
      ≡ some found
    → (o ≡ some found) × (b ≡ false) × (c ≡ false) × (d ≡ false) × (e ≡ true)
replace_lem true a b c d e o found h = absurd cc
replace_lem false a b c d e none found h = absurd cc
replace_lem false a b c d e (some path) found h =
    let (na, nb, nc, nd, ye, same) = chain_lem a b c d e path found h in
    (ap some same, nb, nc, nd, ye)

small_lem : (bound : ℕ) (c : Candidate) → not (is_small bound c) ≡ false → IsSmallFile bound c
small_lem bound c h = ground arith

success_lem : (code : ℕ) → ltb 0 code ≡ false → code ≡ 0
success_lem code h = ground arith

-- A GIF is replaced only by a small ordinary file that the script made without an error, an
-- animation within 4096 by 4096 pixels and 500 frames, and only at the path that was asked for, in
-- the project, not reserved and not behind a link.
pub gif_requires :
    (r : GifRun) (path : Parts)
    → gif r ≡ some path
    → IsTarget r.is_link r.is_link_after r.output path
      × (r.exit_code ≡ 0)
      × IsSmallFile 8_388_608 r.candidate
      × IsAnimation r.image
unfolding gif
gif_requires r path h =
    let (found, ran, small, fine, plain_after) =
      replace_lem (not (is_some (confined r.is_link r.script)))
        (not (ends_with r.script_name ".py") || not (ends_with r.output_lower ".gif"))
        (ltb 0 r.exit_code) (not (is_small 8_388_608 r.candidate)) (not (is_bounded_image r.image))
        (is_some (confined r.is_link_after r.output)) (authorize_path r.is_link r.output) path h in
    let (same, plain, free) = authorize_lem r.is_link r.output path found in
    (
      (same, plain, free, plain_after),
      success_lem r.exit_code ran,
      small_lem 8_388_608 r.candidate small,
      image_lem r.image (ground (arith, fine)),
    )

-- An MP4 is replaced only by an ordinary file of at most 512 MiB that is one by its first bytes and
-- that the converter made without an error, and only at the path that was asked for, in the
-- project, not reserved and not behind a link.
pub mp4_requires :
    (r : Mp4Run) (path : Parts)
    → mp4 r ≡ some path
    → IsTarget r.is_link r.is_link_after r.output path
      × (r.exit_code ≡ 0)
      × IsSmallFile 536_870_912 r.candidate
      × (r.has_ftyp ≡ true)
unfolding mp4
mp4_requires r path h =
    let (found, ran, small, fine, plain_after) =
      replace_lem (not (is_some (confined r.is_link r.input)))
        (not (r.input_suffix == ".gif" || r.input_suffix == ".webm")
          || not (r.output_suffix == ".mp4"))
        (ltb 0 r.exit_code) (not (is_small 536_870_912 r.candidate)) (not r.has_ftyp)
        (is_some (confined r.is_link_after r.output)) (authorize_path r.is_link r.output) path h in
    let (same, plain, free) = authorize_lem r.is_link r.output path found in
    (
      (same, plain, free, plain_after),
      success_lem r.exit_code ran,
      small_lem 536_870_912 r.candidate small,
      ground (arith, fine),
    )
