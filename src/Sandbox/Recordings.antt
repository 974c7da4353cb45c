-- ===== src/Sandbox/Recordings.antt =====
-- `main` of scripts/chatui_gif.py and of scripts/chatui_mp4.py.
use lean_fm.Common.{
  ℕ, String, Bool, false, not, ◌&&◌, ◌||◌, Option, none, some, if◌then◌else◌, ◌==◌, ltb, leb, max,
  ends_with, is_some,
}
use lean_fm.Paths.Confined.{Parts, confined, authorize_path}

-- The file that the command made in its scratch directory.
pub record Candidate : Type 0 where
  pub is_link : Bool
  pub is_file : Bool
  pub size : ℕ

-- What the image library reads of it.
pub record Image : Type 0 where
  pub format : String
  pub width : ℕ
  pub height : ℕ
  pub frames : ℕ

-- `is_link` before and after the command, the names as they were given, the output's in lower
-- case, and what the command does.
pub record GifRun : Type 0 where
  pub is_link : Parts → Bool
  pub is_link_after : Parts → Bool
  pub script : Parts
  pub output : Parts
  pub script_name : String
  pub output_lower : String
  pub exit_code : ℕ
  pub candidate : Candidate
  pub image : Option Image

abbrev pub is_bounded_image : Option Image → Bool
is_bounded_image none = false
is_bounded_image (some i) =
    i.format == "GIF" && leb (max i.width i.height) 4096 && leb 2 i.frames && leb i.frames 500

abbrev pub is_small : ℕ → Candidate → Bool
is_small bound c = not c.is_link && c.is_file && leb c.size bound

-- The output that is replaced by the candidate, or none.
unfoldable pub gif : GifRun → Option Parts
unfolding confined authorize_path
gif r =
    if not (is_some (confined r.is_link r.script))
    then none
    else elim (authorize_path r.is_link r.output) [
      | none ↦ none
      | some path ↦
          if not (ends_with r.script_name ".py") || not (ends_with r.output_lower ".gif")
          then none
          else if ltb 0 r.exit_code
          then none
          else if not (is_small 8_388_608 r.candidate)
          then none
          else if not (is_bounded_image r.image)
          then none
          else if is_some (confined r.is_link_after r.output)
          then some path
          else none
    ]

-- The suffixes of the two paths, in lower case, and whether the result's first bytes name an MP4
-- file.
pub record Mp4Run : Type 0 where
  pub is_link : Parts → Bool
  pub is_link_after : Parts → Bool
  pub input : Parts
  pub output : Parts
  pub input_suffix : String
  pub output_suffix : String
  pub exit_code : ℕ
  pub candidate : Candidate
  pub has_ftyp : Bool

unfoldable pub mp4 : Mp4Run → Option Parts
unfolding confined authorize_path
mp4 r =
    if not (is_some (confined r.is_link r.input))
    then none
    else elim (authorize_path r.is_link r.output) [
      | none ↦ none
      | some path ↦
          if not (r.input_suffix == ".gif" || r.input_suffix == ".webm")
            || not (r.output_suffix == ".mp4")
          then none
          else if ltb 0 r.exit_code
          then none
          else if not (is_small 536_870_912 r.candidate)
          then none
          else if not r.has_ftyp
          then none
          else if is_some (confined r.is_link_after r.output)
          then some path
          else none
    ]
