-- ===== src/Deployments/Types.antt =====
-- The recorded process of a runtime, and the processes of the system.
use lean_fm.Common.{ℕ, String, Bool, false, not, List, ◌∷◌, if◌then◌else◌, ◌==◌, any}

-- app-process.json
pub record Record : Type 0 where
  pub pid : ℕ
  pub start_time : String

-- A process as /proc shows it.
pub record Shown : Type 0 where
  pub start_time : String
  pub directory : String
  pub command : List String

-- The file with the record: a link, nothing, or the record.
pub data Recorded : Type 0 where
  link absent : Recorded
  present : Record → Recorded

pub data Reason : Type 0 where
  record_is_link stale other_process link_in_the_way already_running : Reason
  bad_port system_error : Reason

-- What `stop` does: a refusal, the message that nothing runs, or a signal to a process.
pub data Stopped : Type 0 where
  refused : Reason → Stopped
  not_running : Stopped
  signalled : (pid : ℕ) → Stopped

-- `part in command`
abbrev pub contains : String → List String → Bool
contains part command = any (λ p. p == part) command

-- A process that a runtime started: whether it still runs, whether it ends after SIGTERM within
-- the time that is left, and the signals that were sent to its group.
pub data Signal : Type 0 where
  term kill : Signal

pub record Child : Type 0 where
  pub command : List String
  pub is_running : Bool
  pub heeds_term : Bool
  pub signals : List Signal

-- `os.killpg`, and `wait` on a process that was signalled
abbrev pub send_term : Child → Child
send_term c = if c.is_running then record c { signals = term ∷ c.signals } else c

-- `wait` with a timeout, and after it SIGKILL and `wait`.
abbrev pub wait_or_kill : Child → Child
wait_or_kill c =
    if not c.is_running
    then c
    else if c.heeds_term
    then record c { is_running = false }
    else record c { is_running = false; signals = kill ∷ c.signals }
