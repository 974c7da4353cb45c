-- ===== src/Application/Supervisor.antt =====
-- What `supervise` writes, from its own copy of the record.
use lean_fm.Common.{String, Bool, false, not, Option, none, some, if◌then◌else◌, ◌==◌, slice_to}
use lean_fm.Application.Types.{
  running, stopped, failed, Record, World, Answer, ok, refused, superseded,
}
use lean_fm.Application.Lifecycle.{is_running}

-- Its first lines: it goes on with the record of its own instance only.
unfoldable pub begin : String → Option Record → Answer Record
begin instance none = refused superseded
begin instance (some r) = if not (r.instance_id == instance) then refused superseded else ok r

-- Why the loops end: SIGTERM, an error, or the end of the worker or the owner's process.
pub data Cause : Type 0 where
  interrupted : Cause
  raised : (error : String) → Cause
  process_ended : Cause

-- After the worker answered `health`: the record of a running application, or the error.
unfoldable pub ready : World → Record → Cause × Option Record
ready w data_copy =
    if not (data_copy.revision == w.revision)
    then (raised "Source changed during launch; restart the current revision", none)
    else (process_ended, some (record data_copy { state = running; reason = "" }))

abbrev pub ended_with : Cause → Record → Record
ended_with interrupted r = record r { state = stopped; reason = "" }
ended_with (raised error) r = record r { state = failed; reason = slice_to 3000 error }
ended_with process_ended r = r

abbrev pub no_longer_running : Record → Record
no_longer_running r =
    if is_running r.state
    then record r { state = failed; reason = "Application process ended" }
    else r

abbrev pub without_capability : Record → Record
without_capability r = record r { capability = none }

abbrev pub own : String → Option Record → Bool
own instance none = false
own instance (some r) = r.instance_id == instance

-- The `except` and `finally` clauses.
unfoldable pub finish : String → Cause → Record → Option Record → Option Record
finish instance cause data_copy file =
    let final = without_capability (no_longer_running (ended_with cause data_copy)) in
    if own instance file then some final else file
