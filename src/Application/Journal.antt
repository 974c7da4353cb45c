-- ===== src/Application/Journal.antt =====
-- `journal`: the pair of events that a command leaves in events.jsonl.
use lean_fm.Common.{
  ℕ, String, Bool, true, false, Option, none, some, List, [], ◌∷◌, ◌++◌, map, if◌then◌else◌, ltb,
  get_or, take_last,
}
use lean_fm.Common.Table.{Table, lookup, insert}

-- The operations that are recorded.
pub data Recorded : Type 0 where
  start status stop : Recorded

pub record Event : Type 0 where
  pub session : String
  pub task : String
  pub id : String
  pub prior_ids : List String
  pub cause_id : Option String
  pub time_at_ms : ℕ
  pub src : String
  pub dst : String
  pub message : String
  pub payload : Table String

-- The command: its input, when it began, and the identifier of its request.
pub record Context : Type 0 where
  pub operation : Recorded
  pub input : Table String
  pub started : ℕ
  pub event_id : String

abbrev pub task_of : Recorded → String
task_of start = "start_application"
task_of status = "inspect_application"
task_of stop = "stop_application"

abbrev pub request_name : Recorded → String
request_name start = "ApplicationStartRequested"
request_name status = "ApplicationStatusRequested"
request_name stop = "ApplicationStopRequested"

abbrev pub response_name : Bool → Recorded → String
response_name true start = "ApplicationLaunchRejected"
response_name true status = "ApplicationStatusReturned"
response_name true stop = "ApplicationStopRejected"
response_name false start = "ApplicationReady"
response_name false status = "ApplicationStatusReturned"
response_name false stop = "ApplicationStopped"

-- `allowed`, by the response's name
abbrev pub allowed : Bool → Recorded → List String
allowed true start = "project_id" ∷ "reason" ∷ "request_id" ∷ []
allowed true stop = "project_id" ∷ "reason" ∷ "request_id" ∷ []
allowed false start = "project_id" ∷ "instance_id" ∷ "revision" ∷ "url" ∷ "request_id" ∷ []
allowed false stop = "project_id" ∷ "instance_id" ∷ "request_id" ∷ []
allowed failed status =
    "project_id" ∷ "instance_id" ∷ "revision" ∷ "state" ∷ "url" ∷ "reason" ∷ "request_id" ∷ []

-- `payload.get(key, "")`
unfoldable pub entry : Table String → String → String
unfolding lookup
entry table key = get_or (lookup key table) ""

unfoldable pub request_payload : Context → Table String
unfolding entry
request_payload c =
    let common =
      ("project_id", entry c.input "project_id")
      ∷ ("request_id", entry c.input "request_id")
      ∷ [] in
    elim c.operation [
      | stop ↦ common ++ ("instance_id", entry c.input "instance_id") ∷ []
      | start ↦ common
      | status ↦ common
    ]

-- `values`
unfoldable pub values_of : Bool → Context → Table String → Table String
unfolding entry insert lookup
values_of failed c value =
    let named =
      insert "request_id" (entry c.input "request_id")
        (insert "project_id" (entry c.input "project_id") value) in
    if failed
    then insert "state" "failed"
        (insert "reason" (get_or (lookup "error" value) "Application failed") named)
    else named

abbrev pub pick_from : Table String → String → String × String
pick_from values key = (key, entry values key)

unfoldable pub response_payload : Bool → Context → Table String → Table String
unfolding values_of
response_payload failed c value =
    map (pick_from (values_of failed c value)) (allowed failed c.operation)

abbrev pub session_of : Table String → String
session_of input = get_or (lookup "session_id" input) (entry input "owner")

unfoldable pub request_event : Context → Event
unfolding request_payload
request_event c = record {
  session = session_of c.input;
  task = task_of c.operation;
  id = c.event_id;
  prior_ids = [];
  cause_id = none;
  time_at_ms = c.started;
  src = "UserBrowser";
  dst = "LeanFMServer";
  message = request_name c.operation;
  payload = request_payload c;
}

unfoldable pub response_event : Bool → Context → String → ℕ → Table String → Event
unfolding response_payload
response_event failed c token now value = record {
  session = session_of c.input;
  task = task_of c.operation;
  id = token;
  prior_ids = c.event_id ∷ [];
  cause_id = some c.event_id;
  time_at_ms = now;
  src = "LeanFMServer";
  dst = "UserBrowser";
  message = response_name failed c.operation;
  payload = response_payload failed c value;
}

-- What is kept of the lines of events.jsonl; `size` is the length of their text.
abbrev pub kept : (List Event → ℕ) → List Event → List Event
kept size old = if ltb 1_048_576 (size old) then take_last 400 old else old

-- The lines of events.jsonl after a command, with a new token and the time.
unfoldable pub journal :
    (List Event → ℕ) → Bool → Context → String → ℕ → Table String → List Event → List Event
unfolding request_event response_event
journal size failed c token now value old =
    kept size old ++ request_event c ∷ response_event failed c token now value ∷ []
