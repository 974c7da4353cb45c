-- ===== src/Sandbox/Examples.antt =====
-- A project's checks, an application's sandbox and a recording.
use lean_fm.Common.{ℕ, String, true, false, none, some, List, [], ◌∷◌, ◌≡◌, refl}
use lean_fm.Paths.Confined.{Parts, join, is_reserved, authorize_path}
use lean_fm.Sandbox.Commands.{Places}
use lean_fm.Sandbox.Checks.{Project, Receipt, runtime, test, ended, main}
use lean_fm.Sandbox.Recordings.{GifRun, Mp4Run, gif, mp4}
use lean_fm.Sandbox.Prepared.{Prepared, RunsOwn}
use lean_fm.Sandbox.Allowed.{main_requires, validated_requires}
use lean_fm.Sandbox.Receipts.{Records}

abbrev places : Places
places = record {
  root = "/p/shop";
  cache = "/p/shop/.cache";
  scratch = "/p/shop/.leanfm/checks/s1";
  bridge = "/p/shop/.leanfm/application/ab/bridge";
  source = "/p/shop/source";
  runtime_json = "/p/shop/spec/runtime.json";
  go = "/opt/go";
  has_go = true;
  scripts = "/opt/scripts";
  toolchain = "/opt/lean";
  library = "/opt/lib";
  exists = λ path. true;
}

abbrev project : Project
project = record {
  is_application = true;
  source_is_link = false;
  has_go_module = false;
  makefile = some (record { is_link = false; size = 300; declares = λ op. true });
  has_contract = true;
  revision_before = "r1";
  revision_after = "r1";
  cache_is_link = false;
  book_escapes = false;
  log_is_link = false;
  log_was_replaced = false;
  exit_code = λ command. 0;
  observed = some (record { status = "validated"; revision = none });
}

abbrev receipt : Receipt
receipt = record { status = "validated"; revision = "r1"; exit_code = 0 }

abbrev make_test : List String
make_test = "/usr/bin/make" ∷ "-C" ∷ "/work/source" ∷ "test" ∷ []

abbrev probe : List String
probe = "/usr/bin/python3" ∷ "/runtime/chatui_runtime.py" ∷ "probe" ∷ "/work" ∷ []

test_run : main project test ≡ ended make_test 0 none
unfolding main
test_run = refl

probe_run : main project runtime ≡ ended probe 0 (some receipt)
unfolding main
probe_run = refl

main_requires_example :
    RunsOwn test project make_test
    × (project.exit_code make_test ≡ 0)
    × (project.cache_is_link ≡ false)
    × (project.log_is_link ≡ false)
    × (project.log_was_replaced ≡ false)
    × Prepared test project
    × Records test project 0 none
main_requires_example = main_requires project test make_test 0 none test_run

validated_requires_example :
    ◌≡◌ {A = ℕ} 0 0
    × (project.revision_after ≡ project.revision_before)
    × (project.has_contract ≡ true)
validated_requires_example = validated_requires project probe 0 receipt probe_run refl

abbrev tour : Parts
tour = "book" ∷ "tour.gif" ∷ []

abbrev gif_run : GifRun
gif_run = record {
  is_link = λ path. false;
  is_link_after = λ path. false;
  script = "book" ∷ "tour.py" ∷ [];
  output = tour;
  script_name = "book/tour.py";
  output_lower = "book/tour.gif";
  exit_code = 0;
  candidate = record { is_link = false; is_file = true; size = 5000 };
  image = some (record { format = "GIF"; width = 640; height = 480; frames = 20 });
}

gif_made : gif gif_run ≡ some tour
unfolding gif authorize_path is_reserved join
gif_made = refl

abbrev clip : Parts
clip = "book" ∷ "tour.mp4" ∷ []

abbrev mp4_run : Mp4Run
mp4_run = record {
  is_link = λ path. false;
  is_link_after = λ path. false;
  input = tour;
  output = clip;
  input_suffix = ".gif";
  output_suffix = ".mp4";
  exit_code = 0;
  candidate = record { is_link = false; is_file = true; size = 5000 };
  has_ftyp = true;
}

mp4_made : mp4 mp4_run ≡ some clip
unfolding mp4 authorize_path is_reserved join
mp4_made = refl
