-- ===== src/Deployments/Paxos.antt =====
-- `stop`, `terminate` and `run` of projects/PaxosKV/source/runtime.py.
use lean_fm.Common.{
  ℕ, String, Bool, not, ◌||◌, Option, none, some, List, [], ◌∷◌, ◌++◌, map, if◌then◌else◌, ◌==◌,
  ◌+s◌, ◌-◌, zero, suc, length, is_some,
}
use lean_fm.Deployments.Types.{
  Record, Shown, Recorded, link, absent, present, Reason, record_is_link, stale, other_process,
  link_in_the_way, already_running, bad_port, system_error, Stopped, refused, not_running,
  signalled, contains, Child, send_term, wait_or_kill,
}

-- The checks of a process that is there.
unfoldable pub signal_if_own : (script : String) → Record → Shown → Stopped
signal_if_own script r p =
    if not (p.start_time == r.start_time)
    then refused stale
    else if not (contains script p.command) || not (contains "run" p.command)
    then refused other_process
    else signalled r.pid

abbrev pub stop_shown : String → Record → Option Shown → Stopped
stop_shown script r none = not_running
stop_shown script r (some p) = signal_if_own script r p

-- `stop`, over the processes by number.
unfoldable pub stop : (script : String) → (ℕ → Option Shown) → Recorded → Stopped
unfolding signal_if_own
stop script processes link = refused record_is_link
stop script processes absent = not_running
stop script processes (present r) = stop_shown script r (processes r.pid)

unfoldable pub terminate : List Child → List Child
terminate children = map wait_or_kill (map send_term children)

-- The first few of a list, changed.
abbrev pub map_first : (Child → Child) → ℕ → List Child → List Child
map_first f n [] = []
map_first f zero (c ∷ children) = c ∷ children
map_first f (suc n) (c ∷ children) = f c ∷ map_first f n children

-- `terminate`, or as much of it as is done when another signal breaks it off after some of its
-- turns, those of its first loop and then those of its second.
unfoldable pub terminate_until : Option ℕ → List Child → List Child
unfolding terminate
terminate_until none children = terminate children
terminate_until (some turns) children =
    map_first wait_or_kill (turns - length children) (map_first send_term turns children)

-- REPLICAS
abbrev pub replicas : List (String × String)
replicas = ("kv-0", "9100") ∷ ("kv-1", "9101") ∷ ("kv-2", "9102") ∷ []

-- The paths of a deployment, and the port of its web app.
pub record Setting : Type 0 where
  pub binary : String
  pub cache : String
  pub events : String
  pub port : String

abbrev pub address : String → String
address port = "127.0.0.1:" +s port

-- `','.join(texts)`
unfoldable pub join : List String → String
join [] = ""
join (text ∷ []) = text
join (text ∷ next ∷ rest) = text +s "," +s join (next ∷ rest)

unfoldable pub peers : String
unfolding join
peers = join (map (λ r. r.0 +s "=" +s address r.1) replicas)

unfoldable pub replica_command : Setting → String × String → List String
unfolding peers
replica_command s (name, port) =
    s.binary
    ∷ "replica"
    ∷ "-id"
    ∷ name
    ∷ "-addr"
    ∷ address port
    ∷ "-peers"
    ∷ peers
    ∷ "-data"
    ∷ (s.cache +s "/data/" +s name)
    ∷ "-trace"
    ∷ (s.events +s "/" +s name +s ".jsonl")
    ∷ []

unfoldable pub web_command : Setting → List String
unfolding join
web_command s =
    s.binary
    ∷ "web"
    ∷ "-addr"
    ∷ address s.port
    ∷ "-replicas"
    ∷ join (map (λ r. address r.1) replicas)
    ∷ []

unfoldable pub commands : Setting → List (List String)
unfolding replica_command web_command
commands s = map (replica_command s) replicas ++ web_command s ∷ []

-- How a process behaves from its start on: whether it still runs when the deployment ends, and
-- whether it then heeds SIGTERM.
pub record Behaviour : Type 0 where
  pub is_running : Bool
  pub heeds_term : Bool

abbrev pub child_of : List String → Behaviour → Child
child_of command b = record {
  command = command;
  is_running = b.is_running;
  heeds_term = b.heeds_term;
  signals = [];
}

-- The processes that are started, in order, until an interruption.
unfoldable pub launch : List (List String) → List Behaviour → List Child
launch [] behaviours = []
launch (command ∷ rest) [] = []
launch (command ∷ rest) (b ∷ behaviours) = child_of command b ∷ launch rest behaviours

-- What `run` finds: links, whether the system refuses to make .cache or events or to open the lock,
-- as where the lock is a link, whether PAXOS_WEB_PORT is a number, and whether another run has the
-- lock; and what happens then: the file of the record at the time when the processes are ended, one
-- behaviour for each process that was listed, and the process that a signal kept from being listed
-- after its start, if there was one. What ends the run is an interruption, or else a process that
-- ended or an error of the system; then another signal may break off the ending of the processes.
pub record Course : Type 0 where
  pub setting : Setting
  pub cache_is_link : Bool
  pub cache_fails : Bool
  pub events_is_link : Bool
  pub events_fails : Bool
  pub has_port : Bool
  pub lock_fails : Bool
  pub is_locked : Bool
  pub file : Recorded
  pub behaviours : List Behaviour
  pub unlisted : Option Behaviour
  pub is_interrupted : Bool
  pub second_signal : Option ℕ

-- The processes in the list: none where a link kept the record from being opened.
unfoldable pub started : Course → List Child
unfolding launch commands
started c = elim c.file [
  | link ↦ []
  | absent ↦ launch (commands c.setting) c.behaviours
  | present r ↦ launch (commands c.setting) c.behaviours
]

-- The process that was started next, and is in no list.
abbrev pub next_command : List (List String) → List Child → Option (List String)
next_command [] children = none
next_command (command ∷ rest) [] = some command
next_command (command ∷ rest) (c ∷ children) = next_command rest children

abbrev pub child_if : Option (List String) → Option Behaviour → Option Child
child_if none o = none
child_if (some command) none = none
child_if (some command) (some b) = some (child_of command b)

unfoldable pub astray : Course → Option Child
unfolding started commands
astray c = child_if (next_command (commands c.setting) (started c)) c.unlisted

-- The outcome of `run`: a refusal, or its exit code, none where an interruption goes on to its
-- caller, with the processes of its list, the one astray, and the record, as it leaves them.
pub data Ended : Type 0 where
  refused_run : Reason → Ended
  ended :
      (exit_code : Option ℕ) → (children : List Child) → (outside : Option Child) → Recorded → Ended

abbrev pub code_of : Course → Option ℕ
code_of c = if is_some c.second_signal then none else some (if c.is_interrupted then 0 else 1)

unfoldable pub run : Course → Ended
unfolding terminate_until started astray
run c =
    if c.cache_is_link
    then refused_run link_in_the_way
    else if c.cache_fails
    then refused_run system_error
    else if c.events_is_link
    then refused_run link_in_the_way
    else if c.events_fails
    then refused_run system_error
    else if not c.has_port
    then refused_run bad_port
    else if c.lock_fails
    then refused_run system_error
    else if c.is_locked
    then refused_run already_running
    else ended (code_of c) (terminate_until c.second_signal (started c)) (astray c)
        (if is_some c.second_signal then c.file else absent)
