-- ===== src/Deployments/GoServer.antt =====
-- `stop` and `run` of projects/GoServer/source/runtime.py.
use lean_fm.Common.{ℕ, String, Bool, not, ◌||◌, Option, none, some, if◌then◌else◌, ◌==◌}
use lean_fm.Deployments.Types.{
  Record, Shown, Recorded, link, absent, present, Reason, record_is_link, stale, other_process,
  link_in_the_way, already_running, Stopped, refused, not_running, signalled, contains, Child,
  send_term, wait_or_kill,
}

-- The checks of a process that is there; `source` is the directory that the server runs in.
unfoldable pub signal_if_own : (script source : String) → Record → Shown → Stopped
signal_if_own script source r p =
    if not (p.start_time == r.start_time) || not (p.directory == source)
    then refused stale
    else if not (contains script p.command) || not (contains "run" p.command)
    then refused other_process
    else signalled r.pid

abbrev pub stop_shown : String → String → Record → Option Shown → Stopped
stop_shown script source r none = not_running
stop_shown script source r (some p) = signal_if_own script source r p

unfoldable pub stop : (script source : String) → (ℕ → Option Shown) → Recorded → Stopped
unfolding signal_if_own
stop script source processes link = refused record_is_link
stop script source processes absent = not_running
stop script source processes (present r) = stop_shown script source r (processes r.pid)

-- What happens in `run`: the server, none where it could not be started, and the exit code if it
-- ends by itself.
pub record Course : Type 0 where
  pub cache_is_link : Bool
  pub is_locked : Bool
  pub server : Option Child
  pub exit_code : Option ℕ

pub data Ended : Type 0 where
  refused_run : Reason → Ended
  ended : (exit_code : ℕ) → (server : Option Child) → Recorded → Ended

-- The `finally` clause.
unfoldable pub end_server : Option Child → Option Child
end_server none = none
end_server (some c) = some (wait_or_kill (send_term c))

abbrev pub code_of : Option ℕ → ℕ
code_of none = 0
code_of (some code) = code

unfoldable pub run : Course → Ended
unfolding end_server
run c =
    if c.cache_is_link
    then refused_run link_in_the_way
    else if c.is_locked
    then refused_run already_running
    else ended (code_of c.exit_code) (end_server c.server) absent
