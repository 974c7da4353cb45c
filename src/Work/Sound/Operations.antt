-- ===== src/Work/Sound/Operations.antt =====
-- Every operation of `operate` keeps the invariant of the work directory.
use lean_fm.Common.{String, ◌≡◌, true, Option, none, some, arith}
use lean_fm.Work.Types.{
  Identity, Disk, Job, World, Request, Operation, State, guard, start, status, cancel, claim, save,
}
use lean_fm.Work.Action.{ok, pure, ◌>>=◌, ◌>>◌}
use lean_fm.Work.Storage.{write, release, is_checkpointed}
use lean_fm.Work.Keeps.{
  Keeps-gets, Keeps, Keeps-pure, Keeps-raise, Keeps-or_raise, Keeps-if, Keeps-bind, Keeps-bind_of,
  Keeps-guard, Keeps-modify,
}
use lean_fm.Work.Types.{Response}
use lean_fm.Work.Cancel.{cancel_op, cancel_job, end_job, adopt}
use lean_fm.Work.Claim.{receipt_for, claimed_job, continue_job, claim_with, claim_op}
use lean_fm.Work.Save.{saved_state, batch_done, settle, save_op}
use lean_fm.Work.Operate.{on_job, on_target, on_work, operate}
use lean_fm.Work.Readers.{
  read-Keeps, authorize-Keeps, guard_op-Keeps, resubmitted-Keeps, status_op-Keeps, target-Keeps,
}
use lean_fm.Work.Sound.{
  MayWait, IsSound, write-IsSound, reserve-IsSound, release-IsSound, index-IsSound,
}
use lean_fm.Work.Submit.{submit, start_with, start_op, index_name, fresh_job}

submit-IsSound :
    (w : World) (q : Request) (request_id : String) → Keeps IsSound (submit w q request_id)
unfolding submit
submit-IsSound w q request_id = Keeps-gets _ _ λ l. Keeps-guard _ _ _ λ _.
    Keeps-modify _ _ (λ d h. record { at_name = h.at_name })
      (Keeps-bind _ _ (write-IsSound w (fresh_job w q request_id) (λ h. cc)) λ job.
        Keeps-modify _ _ (λ d h. index-IsSound d (index_name request_id) w.id_token h)
          (Keeps-bind _ _ (reserve-IsSound w job) (λ _. Keeps-pure _)))

start_with-IsSound :
    (w : World) (q : Request) (request_id : String) (o : Option String)
    → Keeps IsSound (start_with w q request_id o)
unfolding start_with
start_with-IsSound w q request_id none = submit-IsSound w q request_id
start_with-IsSound w q request_id (some id) = resubmitted-Keeps w q id

start_op-IsSound : (w : World) (q : Request) → Keeps IsSound (start_op w q)
unfolding start_op
start_op-IsSound w q = Keeps-guard _ _ _ λ _. Keeps-gets _ _ λ index. start_with-IsSound w q _ index

cancel_job-IsSound : (i : Identity) (job : Job) → Keeps IsSound (cancel_job i job)
unfolding cancel_job
cancel_job-IsSound i job =
    Keeps-if (is_checkpointed job.state) (release job >> pure (end_job i job))
      (pure (record job { is_cancelled = true }))
      (λ _. Keeps-bind _ _ (release-IsSound job) λ _. Keeps-pure _) (λ _. Keeps-pure _)

-- What `cancel` stores does not wait.
cancel_job-MayWait :
    (i : Identity) (job : Job) (d : Disk) {changed : Job}
    → (cancel_job i job d).0 ≡ ok changed
    → MayWait changed
unfolding cancel_job ◌>>=◌ release
cancel_job-MayWait i job d e h = ground arith

cancel_op-IsSound : (w : World) (q : Request) (job : Job) → Keeps IsSound (cancel_op w q job)
unfolding cancel_op
cancel_op-IsSound w q job =
    let i = adopt q.identity job in
    Keeps-bind _ _ (authorize-Keeps _ _ _) λ _.
      Keeps-bind_of (cancel_job i job) _ (cancel_job-IsSound i job) λ changed d h e.
        (Keeps-bind (write w changed) _ (write-IsSound w changed (cancel_job-MayWait i job d e))
            λ stored. Keeps-pure _).at
          (cancel_job i job d).1 ((cancel_job-IsSound i job).at d h)

continue_job-IsSound :
    (w : World) (q : Request) (name : String) (job : Job)
    → Keeps IsSound (continue_job w q name job)
unfolding continue_job
continue_job-IsSound w q name job = Keeps-guard _ _ _ λ _. Keeps-guard _ _ _ λ _.
    Keeps-gets _ _ λ l. Keeps-guard _ _ _ λ _. Keeps-guard _ _ _ λ _.
      Keeps-bind _ _ (write-IsSound w (claimed_job w q job) (λ h. cc)) λ stored.
        Keeps-bind _ _ (reserve-IsSound w stored)
          λ _. Keeps-gets _ _ λ text. Keeps-bind _ _ (Keeps-or_raise _ _) λ prompt. Keeps-pure _

claim_with-IsSound :
    (w : World) (q : Request) (name : String) (job : Job) (o : Option Response)
    → Keeps IsSound (claim_with w q name job o)
unfolding claim_with
claim_with-IsSound w q name job (some response) = Keeps-pure _
claim_with-IsSound w q name job none = continue_job-IsSound w q name job

claim_op-IsSound :
    (w : World) (q : Request) (name : String) (job : Job) → Keeps IsSound (claim_op w q name job)
unfolding claim_op
claim_op-IsSound w q name job = Keeps-bind _ _ (authorize-Keeps _ _ _) λ _.
    Keeps-guard _ _ _ λ _. claim_with-IsSound w q name job (receipt_for q.checkpoint job.receipts)

batch_done-MayWait :
    (w : World) (q : Request) (asked : State) (job : Job) → MayWait (batch_done w q asked job)
unfolding saved_state
batch_done-MayWait w q asked job h = ground arith

settle-IsSound :
    (w : World) (q : Request) (asked : State) (job : Job)
    → Keeps IsSound (settle w q asked (batch_done w q asked job))
unfolding settle
settle-IsSound w q asked job =
    Keeps-bind _ _ (write-IsSound w _ (batch_done-MayWait w q asked job)) λ stored.
      Keeps-bind _ _ (Keeps-if _ _ _ (λ _. reserve-IsSound w stored) (λ _. release-IsSound stored))
        λ _. Keeps-pure _

save_op-IsSound : (w : World) (q : Request) (job : Job) → Keeps IsSound (save_op w q job)
unfolding save_op
save_op-IsSound w q job = Keeps-bind _ _ (authorize-Keeps _ _ _) λ _.
    Keeps-guard _ _ _ λ _. Keeps-bind _ _ (Keeps-or_raise _ _) λ asked. settle-IsSound w q asked job

on_job-IsSound :
    (w : World) (q : Request) (op : Operation) (name : String) (job : Job)
    → Keeps IsSound (on_job w q op name job)
unfolding on_job
on_job-IsSound w q status name job = status_op-Keeps w q name job
on_job-IsSound w q cancel name job = cancel_op-IsSound w q job
on_job-IsSound w q claim name job = claim_op-IsSound w q name job
on_job-IsSound w q save name job = save_op-IsSound w q job
on_job-IsSound w q op name job = Keeps-bind _ _ (authorize-Keeps _ _ _) λ _. Keeps-raise _

on_target-IsSound :
    (w : World) (q : Request) (op : Operation) (o : Option String)
    → Keeps IsSound (on_target w q op o)
unfolding on_target
on_target-IsSound w q op none = Keeps-pure _
on_target-IsSound w q op (some id) =
    Keeps-gets _ _ λ name. Keeps-bind _ _ (read-Keeps w name) λ job. on_job-IsSound w q op name job

on_work-IsSound : (w : World) (q : Request) (op : Operation) → Keeps IsSound (on_work w q op)
unfolding on_work
on_work-IsSound w q start = start_op-IsSound w q
on_work-IsSound w q op = Keeps-bind _ _ (target-Keeps w q op) λ id. on_target-IsSound w q op id

operate-Keeps : (w : World) (q : Request) (op : Operation) → Keeps IsSound (operate w q op)
unfolding operate
operate-Keeps w q guard = guard_op-Keeps w q
operate-Keeps w q op = Keeps-guard _ _ _ λ _. on_work-IsSound w q op

-- Whatever the operation, the request and the outside world, and whether it returns or raises,
-- `operate` leaves a sound work directory sound: each job under its own name with at most four
-- receipts, and no job waiting that was cancelled or has twice run without progress.
pub operate-IsSound :
    (w : World) (q : Request) (op : Operation) (d : Disk) → IsSound d → IsSound (operate w q op d).1
operate-IsSound w q op d h = (operate-Keeps w q op).at d h
