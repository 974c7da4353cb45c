-- ===== src/Deployments/Signals.antt =====
-- Which process `stop` signals.
use lean_fm.Common.{
  ℕ, String, Bool, true, false, not, ◌||◌, Option, none, some, ◌≡◌, refl, sym, ap, ◌∙◌, arith,
  if◌then◌else◌, ◌==◌, eq_iff,
}
use lean_fm.Deployments.Types.{
  Record, Shown, Recorded, link, absent, present, stale, other_process, refused, signalled,
  contains,
}
use lean_fm.Deployments.Paxos
use lean_fm.Deployments.GoServer

-- The record names the process, which started when the record says and runs this script.
pub record IsOwn (script : String) (processes : ℕ → Option Shown) (file : Recorded) (pid : ℕ)
    : Type 0 where
  pub recorded : Record
  pub shown : Shown
  pub file_is : file ≡ present recorded
  pub pid_is : recorded.pid ≡ pid
  pub there : processes pid ≡ some shown
  pub start_is : shown.start_time ≡ recorded.start_time
  pub script_in : contains script shown.command ≡ true
  pub run_in : contains "run" shown.command ≡ true

-- The three tests of a process, and the answer.
tests_lem :
    (moved foreign : Bool) (number pid : ℕ)
    → (if moved then refused stale else if foreign then refused other_process else signalled number)
      ≡ signalled pid
    → (moved ≡ false) × (foreign ≡ false) × (number ≡ pid)
tests_lem moved foreign number pid h = ground arith

own_lem :
    (script : String) (processes : ℕ → Option Shown) (r : Record) (p : Shown) (pid : ℕ)
    → processes r.pid ≡ some p
    → (p.start_time == r.start_time) ≡ true
    → (not (contains script p.command) || not (contains "run" p.command)) ≡ false
    → r.pid ≡ pid
    → IsOwn script processes (present r) pid
own_lem script processes r p pid there started runs same = record {
  recorded = r;
  shown = p;
  file_is = refl;
  pid_is = same;
  there = ap processes (sym same) ∙ there;
  start_is = (eq_iff p.start_time r.start_time).0 started;
  script_in = ground (arith, runs);
  run_in = ground (arith, runs);
}

-- The Paxos runtime signals a process only if the record names it, it started when the record
-- says, and its command line runs this script.
pub paxos_signals :
    (script : String) (processes : ℕ → Option Shown) (file : Recorded) (pid : ℕ)
    → Paxos.stop script processes file ≡ signalled pid
    → IsOwn script processes file pid
unfolding Paxos.stop Paxos.signal_if_own
paxos_signals script processes link pid h = absurd cc
paxos_signals script processes absent pid h = absurd cc
paxos_signals script processes (present r) pid h = go (processes r.pid) refl h
  where
    go :
        (o : Option Shown)
        → processes r.pid ≡ o
        → Paxos.stop_shown script r o ≡ signalled pid
        → IsOwn script processes (present r) pid
    go none e h = absurd cc
    go (some p) e h =
        let (started, runs, same) =
          tests_lem (not (p.start_time == r.start_time))
            (not (contains script p.command) || not (contains "run" p.command)) r.pid pid h in
        own_lem script processes r p pid e (ground (arith, started)) runs same

-- So does the Go server's runtime, and only if the process runs in the project's sources.
pub go_signals :
    (script source : String) (processes : ℕ → Option Shown) (file : Recorded) (pid : ℕ)
    → GoServer.stop script source processes file ≡ signalled pid
    → (own : IsOwn script processes file pid) × (own.shown.directory ≡ source)
unfolding GoServer.stop GoServer.signal_if_own own_lem
go_signals script source processes link pid h = absurd cc
go_signals script source processes absent pid h = absurd cc
go_signals script source processes (present r) pid h = go (processes r.pid) refl h
  where
    go :
        (o : Option Shown)
        → processes r.pid ≡ o
        → GoServer.stop_shown script source r o ≡ signalled pid
        → (own : IsOwn script processes (present r) pid) × (own.shown.directory ≡ source)
    go none e h = absurd cc
    go (some p) e h =
        let (started, runs, same) =
          tests_lem (not (p.start_time == r.start_time) || not (p.directory == source))
            (not (contains script p.command) || not (contains "run" p.command)) r.pid pid h in
        (
          own_lem script processes r p pid e (ground (arith, started)) runs same,
          (eq_iff p.directory source).0 (ground (arith, started)),
        )
