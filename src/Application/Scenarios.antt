-- ===== src/Application/Scenarios.antt =====
-- A launch with its supervisor, its processes and a forwarded request.
use lean_fm.Common.{
  ℕ, String, true, false, Option, none, some, List, [], ◌∷◌, ◌≡◌, refl, ◌↔◌, eqb, if◌then◌else◌,
  ◌<◌,
}
use mathlib.Core.List.{Memᴰ}
use lean_fm.Application.Types.{running, Record, World}
use lean_fm.Application.Lifecycle.{look, admit, free, new_record}
use lean_fm.Application.Supervisor.{own, ready, finish, begin, process_ended}
use lean_fm.Application.Supervise.{Observation, supervise, wait_ready, watch}
use lean_fm.Application.Resources.{Process, contains, owned_by}
use lean_fm.Application.Descendants.{Descends, owned_by_iff}
use lean_fm.Application.System.{System, is_alive, Step, launches, runs, Reaches, idle, next}
use lean_fm.Application.Interleaving.{
  IsSingle, reaches-IsSingle, stopped_system, IsStopped, stop_frees,
}
use lean_fm.Application.Worker.{Page, Request, Library, App}
use lean_fm.Application.Identity
use lean_fm.Application.Identity.{Claim, Installation, alive}
use lean_fm.Common.Table.{Table}
use lean_fm.Application.Journal.{Context, Recorded, journal}
use lean_fm.Application.Recorded.{IsPaired, journal-IsPaired}
use lean_fm.Application.Instances.{alive_exclusive}
use lean_fm.Application.Readiness.{IsGood, runs_requires}

abbrev shell_and_child : List Process
shell_and_child =
    record { number = 12; parent = 11; memory = 4096 }
    ∷ record { number = 11; parent = 10; memory = 4096 }
    ∷ record { number = 30; parent = 1; memory = 4096 }
    ∷ []

owned_by_iff_example :
    (contains 12 (owned_by 10 shell_and_child) ≡ true) ↔ Descends 10 shell_and_child 12
owned_by_iff_example = owned_by_iff 10 shell_and_child 12

abbrev quiet : World
quiet = record {
  alive = λ r. false;
  healthy = λ r. true;
  revision = "r1";
  contract = some (record { relative_urls = true });
  makefile_size = 100;
  live_applications = 2;
  instance_token = "00000000000000ab";
  nonce_token = "n1";
  capability_token = "c1";
  exchange = λ r. none;
}

abbrev launched : Record
launched = new_record quiet "ann" "shop"

abbrev running_record : Record
running_record = record launched { state = running; reason = "" }

abbrev before_launch : System
before_launch = record { file = none; supervisors = [] }

abbrev after_launch : System
after_launch = record { file = some launched; supervisors = launched ∷ [] }

abbrev when_running : System
when_running = record { file = some running_record; supervisors = running_record ∷ [] }

launch_reached : Reaches after_launch
unfolding look admit is_alive
launch_reached =
    next before_launch after_launch (idle none)
      (launches before_launch quiet "ann" "shop" none none launched refl refl refl)

running_reached : Reaches when_running
unfolding ready
running_reached =
    next after_launch when_running launch_reached
      (runs (some launched) [] [] launched running_record quiet process_ended refl)

reaches-IsSingle_example : IsSingle when_running
reaches-IsSingle_example = reaches-IsSingle when_running running_reached

abbrev as_running : World
as_running = record quiet { alive = is_alive when_running }

abbrev as_stopped : World
as_stopped = record quiet {
  alive = is_alive (stopped_system as_running when_running running_record);
}

abbrev when_stopped : System
when_stopped = stopped_system as_running when_running running_record

stop_frees_example :
    Step when_running when_stopped
    × (when_stopped.supervisors ≡ [])
    × IsStopped when_stopped.file
    × (look as_stopped "bob" "shop" when_stopped.file ≡ free when_stopped.file none)
stop_frees_example =
    stop_frees when_running running_record as_running as_stopped "bob" "shop" running_reached refl
      refl refl

abbrev good_pass : Observation
good_pass = record {
  is_signalled = false;
  has_root = true;
  file = some launched;
  budget = none;
  exited = none;
  has_owner = true;
  is_ready = true;
}

runs_requires_example :
    (own "00000000000000ab" (some launched) ≡ true)
    × (running_record.state ≡ running)
    × (running_record.instance_id ≡ "00000000000000ab")
    × (running_record.revision ≡ quiet.revision)
    × (o : Observation) × Memᴰ o (good_pass ∷ [])
    × IsGood "00000000000000ab" o
unfolding supervise begin ready finish wait_ready watch
runs_requires_example =
    runs_requires quiet "00000000000000ab" (some launched) (some running_record)
      (finish "00000000000000ab" process_ended running_record (some running_record))
      (good_pass ∷ []) running_record refl

abbrev plain : Library
plain = record { scheme = λ s. ""; netloc = λ s. ""; path_of = λ s. s; unquote = λ s. s }

abbrev page : Page
page = record { status = 200; size = 2; content_type = "text/html"; body = "6f6b" }

abbrev server : App
server = record { is_ready = true; has_exited = false; probe = some page; respond = λ r. some page }

abbrev get_page : Request
get_page = record {
  operation = "proxy";
  nonce = "";
  path = "/menu/today";
  body = some "";
  method = "GET";
  content_type = "";
}

abbrev here : Installation
here = record { script = "/opt/app.py"; python = "/usr/bin/python3" }

abbrev claim : Claim
claim = record { pid = some 77; start_time = "1234"; root = "/p/shop"; instance_id = "ab" }

abbrev at_77 : ℕ → Option Identity.Process
at_77 pid =
    if eqb pid 77
    then some (record {
      program = "/usr/bin/python3";
      arguments = "/opt/app.py" ∷ "supervise" ∷ "/p/shop" ∷ "ab" ∷ [];
      executable = "/usr/bin/python3";
      start_time = "1234";
      is_own = true;
    })
    else none

claim_alive : alive here at_77 claim ≡ true
unfolding alive
claim_alive = refl

alive_exclusive_example :
    (claim.root ≡ claim.root)
    × (claim.instance_id ≡ claim.instance_id)
    × (claim.start_time ≡ claim.start_time)
    × (pid : ℕ) × (claim.pid ≡ some pid)
    × (1 < pid)
alive_exclusive_example = alive_exclusive here at_77 claim claim claim_alive claim_alive refl

abbrev stop_context : Context
stop_context = record {
  operation = Recorded.stop;
  input =
      ("owner", "ann") ∷ ("project_id", "shop") ∷ ("instance_id", "ab") ∷ ("request_id", "q1") ∷ [];
  started = 1000;
  event_id = "e1";
}

abbrev stop_answer : Table String
stop_answer = ("state", "stopped") ∷ ("instance_id", "ab") ∷ ("owner", "ann") ∷ []

journal-IsPaired_example :
    IsPaired (journal (λ events. 0) false stop_context "t1" 1007 stop_answer [])
unfolding IsPaired
journal-IsPaired_example =
    journal-IsPaired (λ events. 0) false stop_context "t1" 1007 stop_answer [] tt
