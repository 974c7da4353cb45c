-- ===== src/Deployments/Examples.antt =====
-- A deployment of four processes, and its stop.
use lean_fm.Common.{
  ℕ, String, true, false, Option, none, some, [], ◌∷◌, ◌≡◌, refl, if◌then◌else◌, eqb,
}
use lean_fm.Deployments.Types.{Shown, Recorded, present, signalled}
use lean_fm.Deployments.Paxos
use lean_fm.Deployments.GoServer
use lean_fm.Deployments.Signals.{IsOwn, paxos_signals}
use lean_fm.Deployments.Ends.{PaxosLeaves, paxos_run-Leaves}

abbrev script : String
script = "/p/source/runtime.py"

abbrev source : String
source = "/p/source"

abbrev own_process : Shown
own_process = record {
  start_time = "9001";
  directory = "/p/source";
  command = "python3" ∷ "/p/source/runtime.py" ∷ "run" ∷ [];
}

abbrev at_50 : ℕ → Option Shown
at_50 pid = if eqb pid 50 then some own_process else none

abbrev recorded : Recorded
recorded = present (record { pid = 50; start_time = "9001" })

paxos_stopped : Paxos.stop script at_50 recorded ≡ signalled 50
unfolding Paxos.stop
paxos_stopped = refl

go_stopped : GoServer.stop script source at_50 recorded ≡ signalled 50
unfolding GoServer.stop
go_stopped = refl

paxos_signals_example : IsOwn script at_50 recorded 50
paxos_signals_example = paxos_signals script at_50 recorded 50 paxos_stopped

abbrev course : Paxos.Course
course = record {
  setting = record {
    binary = "/p/.cache/paxos-kv";
    cache = "/p/.cache";
    events = "/p/events";
    port = "8082";
  };
  cache_is_link = false;
  events_is_link = false;
  has_port = true;
  cache_fails = false;
  events_fails = false;
  lock_fails = false;
  is_locked = false;
  file = recorded;
  behaviours =
      record { is_running = true; heeds_term = true }
      ∷ record { is_running = false; heeds_term = false }
      ∷ record { is_running = true; heeds_term = false }
      ∷ [];
  unlisted = none;
  is_interrupted = true;
  second_signal = none;
}

paxos_run-Leaves_example : PaxosLeaves course (Paxos.run course)
paxos_run-Leaves_example = paxos_run-Leaves course refl refl

abbrev go_course : GoServer.Course
go_course = record {
  cache_is_link = false;
  is_locked = false;
  server = some (record {
    command = "/p/.cache/goserver" ∷ [];
    is_running = true;
    heeds_term = false;
    signals = [];
  });
  exit_code = none;
}
