-- ===== src/Runtime/Contract.antt =====
-- `contract` and `status`.
use lean_fm.Common.{
  ℕ, String, Bool, false, not, ◌&&◌, ◌||◌, Option, none, some, List, [], ◌∷◌, ltb, leb, eqb,
  if◌then◌else◌, ◌==◌, str_len, all_chars, starts_with,
}

-- spec/runtime.json; a port or a path that is no number or no text is `none`.
pub record Value : Type 0 where
  pub version : ℕ
  pub kind : String
  pub directory : String
  pub command : List String
  pub host : String
  pub port : Option ℕ
  pub readiness_path : Option String
  pub page_path : Option String

-- The three files with their sizes, none where there is no such file; the object in the first, and
-- whether the second is more than white space; LEANFM_PORT, and `revision(root)`.
pub record World : Type 0 where
  pub runtime_size : Option ℕ
  pub runtime_value : Value
  pub memory_size : Option ℕ
  pub memory_has_text : Bool
  pub makefile_size : Option ℕ
  pub reserved_port : ℕ
  pub revision : String

pub data Reason : Type 0 where
  no_runtime not_fixed bad_port bad_path no_memory no_makefile : Reason

pub data Result (A : Type 0) : Type 0 where
  ok : A → Result A
  failed : Reason → Result A

abbrev pub is_within : ℕ → Option ℕ → Bool
is_within limit none = false
is_within limit (some size) = leb size limit

abbrev pub is_make_run : List String → Bool
is_make_run (first ∷ second ∷ []) = first == "make" && second == "run"
is_make_run _ = false

abbrev pub is_fixed : Value → Bool
is_fixed v =
    eqb v.version 1
    && v.kind == "http"
    && v.directory == "source"
    && is_make_run v.command
    && v.host == "127.0.0.1"

abbrev pub is_port : ℕ → Option ℕ → Bool
is_port reserved none = false
is_port reserved (some port) =
    leb 1024 port && leb port 65535 && not (eqb port 8080) && not (eqb port reserved)

-- A character that may stand in a probe's path: neither a control character, a blank nor a hash.
abbrev pub is_url_char : ℕ → Bool
is_url_char c = ltb 32 c && not (eqb c b'#')

abbrev pub is_probe_path : Option String → Bool
is_probe_path none = false
is_probe_path (some part) =
    starts_with part "/"
    && not (starts_with part "//")
    && leb (str_len part) 256
    && all_chars is_url_char part

unfoldable pub checked : World → Value → Result Value
checked w v =
    if not (is_fixed v)
    then failed not_fixed
    else if not (is_port w.reserved_port v.port)
    then failed bad_port
    else if not (is_probe_path v.readiness_path) || not (is_probe_path v.page_path)
    then failed bad_path
    else if not (is_within 65536 w.memory_size && w.memory_has_text)
    then failed no_memory
    else if not (is_within 2_000_000 w.makefile_size)
    then failed no_makefile
    else ok v

unfoldable pub contract : World → Result Value
unfolding checked
contract w =
    if not (is_within 16384 w.runtime_size) then failed no_runtime else checked w w.runtime_value

-- reports/runtime-check/validation.json
pub record Receipt : Type 0 where
  pub status : String
  pub revision : String

abbrev pub is_valid : World → Option Receipt → Result Value → Bool
is_valid w none r = false
is_valid w (some receipt) (failed why) = false
is_valid w (some receipt) (ok v) = receipt.status == "validated" && receipt.revision == w.revision

-- The entry "valid" of `status`.
unfoldable pub status : World → Option Receipt → Bool
unfolding contract
status w receipt = is_valid w receipt (contract w)
