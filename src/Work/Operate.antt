-- ===== src/Work/Operate.antt =====
-- `WorkStore.operate`: what it does before an operation, and the dispatch.
use lean_fm.Common.{
  ℕ, String, Bool, true, false, not, ◌&&◌, ◌||◌, Option, none, some, [], ◌∷◌, ltb, eqb,
  if◌then◌else◌, ◌==◌, is_empty, get_or, is_some, str_len, all_chars, is_hex,
}
use Prim.Native.String.{compare}
use text.Mathlib.Text.{is_lt}
use lean_fm.Common.Table.{Table, lookup}
use lean_fm.Work.Types.{
  State, running, checkpointed, Identity, Job, Lease, File, job_file, index_file, Disk, Request,
  World, unauthenticated, unknown_operation, Operation, guard, start, status, cancel, claim, save,
  Reply, no_work,
}
use lean_fm.Work.Action.{Action, pure, raise, gets, raise_if, ◌>>=◌, ◌>>◌}
use lean_fm.Work.Storage.{is_id, is_tag, read, active, authorize}
use lean_fm.Work.Submit.{indexed, guard_op, start_op}
use lean_fm.Work.Cancel.{status_op, cancel_op}
use lean_fm.Work.Claim.{claim_op}
use lean_fm.Work.Save.{save_op}

-- [0-9a-f]{32}, the stem of a job's file.
abbrev pub is_job_name : String → Bool
is_job_name s = eqb (str_len s) 32 && all_chars is_hex s

abbrev pub is_open : State → Bool
is_open running = true
is_open checkpointed = true
is_open _ = false

-- The order of Python's pairs.
abbrev pub newer : ℕ × String → ℕ × String → Bool
newer (t, id) (u, best) = ltb u t || eqb u t && is_lt (compare best id)

abbrev pub pick : ℕ × String → Option (ℕ × String) → Option (ℕ × String)
pick c none = some c
pick c (some best) = if newer c best then some c else some best

abbrev pub file_time : File → ℕ
file_time (job_file job t) = t
file_time (index_file id) = 0

-- One candidate of the loop.
abbrev pub consider : String → File → Option (ℕ × String) → Job → Option (ℕ × String)
consider account file best job =
    if job.account == account && is_open job.state then pick (file_time file, job.id) best else best

-- The newest open work of an account, for `status` after a reload: the loop over the glob.
unfoldable pub latest :
    World → String → Table File → Option (ℕ × String) → Action (Option (ℕ × String))
latest w account [] best = pure best
latest w account ((name, file) ∷ rest) best =
    let skip = latest w account rest best in
    let visit : Action (Option (ℕ × String)) =
      read w name >>= λ job. latest w account rest (consider account file best job) in
    if is_job_name name then visit else skip

-- The identifier to look at, or `none` where there is no work to report on.
unfoldable pub search_latest : World → Request → Action (Option String)
unfolding latest
search_latest w q = do
  files ← gets (λ d. d.files)
  best ← latest w q.identity.account files none
  pure (elim best [ none ↦ none | some (t, id) ↦ some id ])

abbrev pub lease_id : Option Lease → Option String
lease_id none = none
lease_id (some l) = some l.id

unfoldable pub target_with : World → Request → Operation → Option Lease → Action (Option String)
unfolding search_latest
target_with w q op (some l) = pure (some l.id)
target_with w q cancel none = gets (λ d. lease_id d.active)
target_with w q op none = search_latest w q

abbrev pub reads_only : Operation → Bool
reads_only status = true
reads_only cancel = true
reads_only _ = false

abbrev pub wanted : Request → String
wanted q = if q.work_id == "active" then "" else q.work_id

unfoldable pub target : World → Request → Operation → Action (Option String)
target w q op =
    if is_empty (wanted q) && reads_only op
    then (gets (active w) >>= λ l. target_with w q op l)
    else pure (some (wanted q))

abbrev pub is_status : Operation → Bool
is_status status = true
is_status _ = false

-- `status` takes a request's identifier too.
abbrev pub resolve : Operation → String → Disk → String
resolve op id d =
    if is_status op && is_id id && not (is_some (lookup id d.files))
    then get_or (indexed id d) id
    else id

unfoldable pub on_job : World → Request → Operation → String → Job → Action Reply
on_job w q status name job = status_op w q name job
on_job w q cancel name job = cancel_op w q job
on_job w q claim name job = claim_op w q name job
on_job w q save name job = save_op w q job
on_job w q op name job = authorize job q.identity q.explicit_resume >> raise unknown_operation

unfoldable pub on_target : World → Request → Operation → Option String → Action Reply
unfolding on_job
on_target w q op none = pure no_work
on_target w q op (some id) = do
  name ← gets (resolve op id)
  job ← read w name
  on_job w q op name job

abbrev pub is_authentic : Operation → Identity → Bool
is_authentic op i = is_tag i.owner && (reads_only op || is_tag i.credential)

unfoldable pub on_work : World → Request → Operation → Action Reply
unfolding target on_target
on_work w q start = start_op w q
on_work w q op = do id ← target w q op; on_target w q op id

unfoldable pub operate : World → Request → Operation → Action Reply
unfolding on_work
operate w q guard = guard_op w q
operate w q op = do raise_if (not (is_authentic op q.identity)) unauthenticated; on_work w q op
