-- ===== src/Application/Supervise.antt =====
-- The loops of `supervise`.
use lean_fm.Common.{
  String, Bool, not, ◌||◌, Option, none, some, List, [], ◌∷◌, if◌then◌else◌, ◌+s◌, slice_last,
}
use lean_fm.Application.Types.{Record, World, Answer, ok, refused}
use lean_fm.Application.Supervisor.{
  Cause, interrupted, raised, process_ended, own, begin, ready, finish,
}

-- What one pass of a loop finds: a signal, the project's directory, the record, what
-- `check_resources` raises, the worker's log if it has exited, the process that owns LeanFM, and
-- the answer to `health`, false where the exchange raises.
pub record Observation : Type 0 where
  pub is_signalled : Bool
  pub has_root : Bool
  pub file : Option Record
  pub budget : Option String
  pub exited : Option String
  pub has_owner : Bool
  pub is_ready : Bool

abbrev pub removed : Cause
removed = raised "Project or application instance was removed"

-- How the first loop ends, if it ends in this pass with an error.
unfoldable pub pass : String → Observation → Option Cause
pass instance o =
    if o.is_signalled
    then some interrupted
    else if not o.has_root || not (own instance o.file)
    then some removed
    else elim o.budget [
      | some error ↦ some (raised error)
      | none ↦ elim o.exited [
        | some log ↦ some (raised ("Application worker exited: " +s slice_last 2000 log))
        | none ↦ if not o.has_owner then some (raised "LeanFM owner process ended") else none
      ]
    ]

pub data Waited : Type 0 where
  gave_up : Cause → Waited
  became_ready : List Observation → Waited

-- The first loop; the passes end with the deadline.
unfoldable pub wait_ready : String → List Observation → Waited
unfolding pass
wait_ready instance [] =
    gave_up (raised "Application readiness exceeded 90 seconds; inspect its project runtime log")
wait_ready instance (o ∷ rest) =
    let later = wait_ready instance rest in
    elim (pass instance o) [
      | some cause ↦ gave_up cause
      | none ↦ if o.is_ready then became_ready rest else later
    ]

-- The second loop; the passes end with the worker.
unfoldable pub watch : String → List Observation → Cause
watch instance [] = process_ended
watch instance (o ∷ rest) =
    let later = watch instance rest in
    if o.is_signalled then interrupted else elim o.exited [
      | some log ↦ process_ended
      | none ↦ if not o.has_root || not (own instance o.file) then removed else elim o.budget [
        | some error ↦ raised error
        | none ↦ if not o.has_owner then process_ended else later
      ]
    ]

-- What a supervisor writes: the record of a running application, if it comes to that, and the
-- record that it leaves.
abbrev pub Writes : Type 0
Writes = Option Record × Option Record

abbrev pub watched :
    String → List Observation → Record → Option Record → Cause × Option Record → Writes
watched instance rest data_copy left (cause, none) = (none, finish instance cause data_copy left)
watched instance rest data_copy left (cause, some running_record) =
    (some running_record, finish instance (watch instance rest) running_record left)

abbrev pub waited : World → String → Record → Option Record → Waited → Writes
waited w instance data_copy left (gave_up cause) = (none, finish instance cause data_copy left)
waited w instance data_copy left (became_ready rest) =
    watched instance rest data_copy left (ready w data_copy)

abbrev pub supervise_from :
    World → String → List Observation → Option Record → Answer Record → Answer Writes
supervise_from w instance passes left (refused why) = refused why
supervise_from w instance passes left (ok data_copy) =
    ok (waited w instance data_copy left (wait_ready instance passes))

-- `supervise`, with the record at its start, the passes of its loops and the record at its end.
unfoldable pub supervise :
    World → String → Option Record → List Observation → Option Record → Answer Writes
unfolding begin ready finish wait_ready watch
supervise w instance file passes left = supervise_from w instance passes left (begin instance file)
