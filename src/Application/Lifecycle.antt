-- ===== src/Application/Lifecycle.antt =====
-- `status`, `stop` and `start`.
use lean_fm.Common.{
  ℕ, String, Bool, true, false, not, ◌&&◌, ◌||◌, Option, none, some, List, [], ◌∷◌, ltb, leb,
  if◌then◌else◌, ◌==◌, ◌+s◌, is_empty,
}
use lean_fm.Application.Types.{
  State, starting, running, stopped, failed, stale, Record, Profile, World, View, other_owner,
  other_owner_runs, instance_changed, invalid_contract, no_relative_urls, makefile_too_big,
  capacity_reached, not_ready, deadline_exceeded, Answer, ok, refused,
}

abbrev pub is_running : State → Bool
is_running running = true
is_running _ = false

abbrev pub is_failed : State → Bool
is_failed failed = true
is_failed _ = false

abbrev pub needs_process : State → Bool
needs_process starting = true
needs_process running = true
needs_process _ = false

abbrev pub shows_reason : State → Bool
shows_reason failed = true
shows_reason stopped = true
shows_reason _ = false

-- The state that `status` reports for a record.
unfoldable pub observed_state : World → Record → State
observed_state w r =
    if needs_process r.state && not (w.alive r)
    then failed
    else if is_running r.state
    then (if not (r.revision == w.revision) then stale else if w.healthy r then running else failed)
    else r.state

abbrev pub open_url : String → String
open_url project = "/api/projects/" +s project +s "/application/open"

abbrev pub view : World → String → Record → View
view w project r =
    let state = observed_state w r in
    record {
      state = state;
      project_id = project;
      instance_id = r.instance_id;
      revision = r.revision;
      url = if is_running state then open_url project else "";
      reason = if shows_reason state then r.reason else "";
    }

abbrev pub no_view : String → View
no_view project = record {
  state = stopped;
  project_id = project;
  instance_id = "";
  revision = "";
  url = "";
  reason = "";
}

unfoldable pub status : World → String → String → Option Record → Answer View
unfolding observed_state
status w owner project none = ok (no_view project)
status w owner project (some r) =
    if not (r.owner == owner) then refused other_owner else ok (view w project r)

-- The record after `stop`: the process is ended, and its capability dropped.
abbrev pub stop_record : Record → Record
stop_record r = record r { state = stopped; reason = ""; capability = none }

-- The answer, the record that is left, and the instance whose supervisor was killed, if one was.
abbrev pub Stopped : Type 0
Stopped = Answer (Unit {0}) × Option Record × Option String

unfoldable pub stop : World → String → String → Option Record → Stopped
stop w owner instance none = (ok tt, none, none)
stop w owner instance (some r) =
    if not (r.owner == owner)
    then (refused other_owner, some r, none)
    else if not (is_empty instance) && not (instance == r.instance_id)
    then (refused instance_changed, some r, none)
    else (ok tt, some (stop_record r), if w.alive r then some r.instance_id else none)

abbrev pub new_record : World → String → String → Record
new_record w owner project = record {
  owner = owner;
  project_id = project;
  instance_id = w.instance_token;
  nonce = w.nonce_token;
  capability = some w.capability_token;
  revision = w.revision;
  state = starting;
  reason = "";
}

abbrev pub max_live : ℕ
max_live = 4

-- The contract and the admission, which make the new record.
unfoldable pub admit : World → String → String → Option Profile → Answer Record
admit w owner project none = refused invalid_contract
admit w owner project (some profile) =
    if not profile.relative_urls
    then refused no_relative_urls
    else if ltb 2_000_000 w.makefile_size
    then refused makefile_too_big
    else if leb max_live w.live_applications
    then refused capacity_reached
    else ok (new_record w owner project)

-- What `start` finds before it launches: another's live instance, its own running one, or none,
-- with the record that is left and the instance whose supervisor it had killed, if one lived.
pub data Before : Type 0 where
  denied : Before
  runs : View → Before
  free : (left : Option Record) → (killed : Option String) → Before

abbrev pub freed : Stopped → Before
freed (refused why, left, killed) = denied
freed (ok done, left, killed) = free left killed

unfoldable pub look : World → String → String → Option Record → Before
unfolding observed_state stop
look w owner project none = free none none
look w owner project (some r) =
    if not (r.owner == owner) && w.alive r
    then denied
    else if is_running (observed_state w r)
    then runs (view w project r)
    else if w.alive r
    then freed (stop w owner "" (some r))
    else free (some r) none

abbrev pub missed : Stopped → Answer View × Option Record
missed (refused why, file, killed) = (refused why, file)
missed (ok _, file, killed) = (refused deadline_exceeded, file)

-- The records that the waiting loop reads until the deadline; then the new instance is stopped.
unfoldable pub wait :
    World
    → String
    → String
    → String
    → Option Record
    → List (Option Record)
    → Answer View × Option Record
unfolding status stop
wait w owner project instance last [] = missed (stop w owner instance last)
wait w owner project instance last (none ∷ rest) = (refused not_ready, none)
wait w owner project instance last (some r ∷ rest) =
    let later = wait w owner project instance (some r) rest in
    if is_running r.state
    then (status w owner project (some r), some r)
    else if is_failed r.state || not (w.alive r)
    then (refused not_ready, some r)
    else later

abbrev pub launch :
    World
    → String
    → String
    → Option Record
    → List (Option Record)
    → Answer Record
    → Answer View × Option Record
launch w owner project file reads (refused why) = (refused why, file)
launch w owner project file reads (ok r) = wait w owner project r.instance_id (some r) reads

abbrev pub start_with :
    World
    → String
    → String
    → Option Record
    → List (Option Record)
    → Before
    → Answer View × Option Record
start_with w owner project file reads denied = (refused other_owner_runs, file)
start_with w owner project file reads (runs v) = (ok v, file)
start_with w owner project file reads (free left killed) =
    launch w owner project left reads (admit w owner project w.contract)

unfoldable pub start :
    World → String → String → Option Record → List (Option Record) → Answer View × Option Record
unfolding look admit wait
start w owner project file reads = start_with w owner project file reads (look w owner project file)
