-- ===== src/Work/Sound.antt =====
-- The invariant of the work directory, and that every operation keeps it.
pub mod Operations
use lean_fm.Common.{
  subst, ◌⊎◌, ℕ, suc, ◌+◌, ◌≤◌, ◌<◌, String, ◌≡◌, refl, Bool, true, false, Option, none, some, List,
  [], ◌∷◌, ltb, if◌then◌else◌, arith, not, ◌==◌, eq_iff, length, is_empty, is_some, ◌&&◌, ◌||◌,
  Bool-cases, inl, inr, leb,
}
use lean_fm.Common.Table.{Table, lookup, insert, lookup-insert}
use lean_fm.Work.Types.{
  Identity, Disk, Reason, Job, World, File, job_file, index_file, Lease, Request, Reply, Operation,
  State, running, checkpointed, completed, blocked, gate, cancelled, guard, start, status, cancel,
  claim, save, unknown,
}
use lean_fm.Work.Action.{
  Result, ok, rejected, Action, pure, raise, gets, or_raise, raise_if, modify, and_then, ◌>>=◌,
  ◌>>◌,
}
use lean_fm.Work.Storage.{
  read, write, path, fit, put_file, reserve, release, authorize, is_checkpointed, active, without,
  is_id,
}
use lean_fm.Work.Fit.{SameJob, fit-SameJob, length-fit}
use lean_fm.Work.Keeps.{
  Keeps-checked, Keeps-gets, Keeps, Keeps-pure, Keeps-raise, Keeps-or_raise, Keeps-if, Keeps-bind,
  Keeps-bind_of, Keeps-guard, Keeps-modify, Reads, read-Reads, disk-read,
}
use lean_fm.Work.Submit.{
  guard_with, guard_op, submit, resubmitted, start_with, start_op, index_name, fresh_job,
}

-- Work that waits to go on has not been cancelled, and has not twice run without progress.
abbrev pub MayWait : Job → Type 0
MayWait job = is_checkpointed job.state ≡ true → (job.is_cancelled ≡ false) × (job.no_progress < 2)

pub record IsWell (name : String) (job : Job) : Type 0 where
  pub named : job.id ≡ name
  pub may_wait : MayWait job
  pub few_receipts : length job.receipts ≤ 4

-- Every job on the disk lies under its own name, may wait if it waits, and has four receipts at most.
pub record IsSound (d : Disk) : Type 0 where
  pub at_name :
      (name : String) (job : Job) (time : ℕ)
      → lookup name d.files ≡ some (job_file job time)
      → IsWell name job

IsWell-fit : (w : World) (job : Job) → MayWait job → IsWell (fit w job).id (fit w job)
IsWell-fit w job h = record {
  named = refl;
  may_wait = ground (arith, fit-SameJob w job);
  few_receipts = length-fit w job;
}

pub put_file-IsSound :
    (d : Disk) (job : Job) (now : ℕ)
    → IsWell job.id job
    → IsSound d
    → IsSound (put_file job.id (job_file job now) d)
put_file-IsSound d job now well h = record {
  at_name = λ name j t e. found name j t (Bool-cases (job.id == name)) e;
}
  where
    found :
        (name : String) (j : Job) (t : ℕ)
        → ((job.id == name) ≡ true) ⊎ ((job.id == name) ≡ false)
        → lookup name (insert job.id (job_file job now) d.files) ≡ some (job_file j t)
        → IsWell name j
    found name j t (inl same) e =
        let p : job ≡ j = ground (arith, lookup-insert job.id name (job_file job now) d.files) in
        let q : job.id ≡ name = (eq_iff job.id name).0 same in
        subst (IsWell name) p (subst (λ n. IsWell n job) q well)
    found name j t (inr other) e =
        h.at_name name j t (ground (arith, lookup-insert job.id name (job_file job now) d.files))

pub index-IsSound :
    (d : Disk) (name id : String) → IsSound d → IsSound (put_file name (index_file id) d)
index-IsSound d name id h = record {
  at_name =
      λ n j t e. h.at_name n j t (ground (arith, lookup-insert name n (index_file id) d.files));
}

pub write-IsSound : (w : World) (job : Job) → MayWait job → Keeps IsSound (write w job)
unfolding write path
write-IsSound w job h = Keeps-guard _ _ _ λ _. Keeps-checked _ _ _ _ (
    Keeps-modify _ _ (λ d sound. put_file-IsSound d (fit w job) w.now (IsWell-fit w job h) sound)
      (Keeps-pure (fit w job)))

pub reserve-IsSound : (w : World) (job : Job) → Keeps IsSound (reserve w job)
unfolding reserve modify
reserve-IsSound w job = record { at = λ d h. record { at_name = h.at_name } }

pub release-IsSound : (job : Job) → Keeps IsSound (release job)
unfolding release modify
release-IsSound job = record { at = λ d h. record { at_name = h.at_name } }
