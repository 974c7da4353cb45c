-- ===== src/Work/Continue.antt =====
-- Who may go on with work, and how often: theorems on `claim`, `save` and `cancel`.
use lean_fm.Common.{
  ◌+◌, String, ◌≡◌, ◌≢◌, true, false, Option, none, some, arith, ◌==◌, ◌||◌, eq_iff, sym, ap, ◌∙◌,
}
use lean_fm.Common.Table.{lookup, lookup-insert_self}
use lean_fm.Work.Types.{Disk, Job, World, Request, Response, running, job_file, granted}
use lean_fm.Work.Action.{ok}
use lean_fm.Work.Storage.{fit, is_caller, is_checkpointed, lease_time}
use lean_fm.Work.Fit.{fit-SameJob}
use lean_fm.Work.Inversion.{
  bind-ok, or_raise-ok, guard-ok, authorize-ok, gets-ok, reserve-ok, pure-ok,
}
use lean_fm.Work.Bounds.{write-ok}
use lean_fm.Work.Claim.{receipt_for, claimed_job, continue_job, claim_with, claim_op}

-- What stands behind a granted claim: the caller, the job before, and the disk after.
pub record Grants (w : World) (q : Request) (job granted_job : Job) (d' : Disk) : Type 0 where
  pub waiting : is_checkpointed job.state ≡ true
  pub current : job.checkpoint ≡ q.checkpoint
  pub not_cancelled : job.is_cancelled ≡ false
  pub unchanged_files : (job.revision == w.revision || q.restart) ≡ true
  pub is_stored : granted_job ≡ fit w (claimed_job w q job)
  pub lease : d'.active ≡ some (record { id = granted_job.id; expires = w.now + lease_time })
  pub on_disk : lookup granted_job.id d'.files ≡ some (job_file granted_job w.now)

module _ (w : World) (q : Request) (name : String) (job : Job) (d : Disk) where
  continue_job-Grants :
      (j : Job) (prompt : String) (d' : Disk)
      → continue_job w q name job d ≡ (ok (granted j prompt), d')
      → Grants w q job j d'
  unfolding continue_job
  continue_job-Grants j prompt d' e =
      let (not_cancelled, e₁) = guard-ok _ _ _ d e in
      let (waits, e₂) = guard-ok _ _ _ d e₁ in
      let (_, e₃) = guard-ok _ _ _ d (gets-ok _ _ d e₂) in
      let (files, e₄) = guard-ok _ _ _ d e₃ in
      let (stored, written, e₅) = bind-ok _ _ d e₄ in
      let s = write-ok w (claimed_job w q job) stored d written in
      let (text, _, e₆) = or_raise-ok _ _ _ _ (gets-ok _ _ _ (reserve-ok w stored _ _ e₅)) in
      let (same, disk) = pure-ok _ _ e₆ in
      let same_job : stored ≡ j = ground arith in
      record {
        waiting = ground arith;
        current = ground (arith, eq_iff job.checkpoint q.checkpoint);
        not_cancelled = not_cancelled;
        unchanged_files = ground arith;
        is_stored = sym same_job ∙ s.fitted;
        lease = cc (ap (λ (x : Disk). x.active) disk, same_job);
        on_disk = cc (
          ap (λ (x : Disk). x.files) disk,
          same_job,
          s.files,
          lookup-insert_self stored.id (job_file stored w.now) d.files,
        );
      }

  -- A claim is granted only to the job's own caller, for the current checkpoint of work that waits
  -- and was not cancelled, with unchanged project files or an explicit restart. The job then runs
  -- under a new claim, is on disk as granted, and holds the project for thirty seconds.
  pub claim_requires :
      (j : Job) (prompt : String) (d' : Disk)
      → claim_op w q name job d ≡ (ok (granted j prompt), d')
      → (is_caller job q.identity ≡ true) × Grants w q job j d'
  unfolding claim_op claim_with
  claim_requires j prompt d' e =
      let (caller, _, e₁) = authorize-ok _ _ _ _ d e in
      let (_, e₂) = guard-ok _ _ _ d e₁ in
      (caller, granted_new (receipt_for q.checkpoint job.receipts) e₂)
    where
      granted_new :
          (o : Option Response)
          → claim_with w q name job o d ≡ (ok (granted j prompt), d')
          → Grants w q job j d'
      granted_new (some r) e₂ = let (same, _) = pure-ok _ _ e₂ in absurd (cc)
      granted_new none e₂ = continue_job-Grants j prompt d' e₂

pub granted-is_running :
    (w : World) (q : Request) (job j : Job) (d' : Disk) → Grants w q job j d' → j.state ≡ running
granted-is_running w q job j d' g = rw g.is_stored (fit-SameJob w (claimed_job w q job)).state

-- A claim that was granted is not granted again, by any later call, while the job stands as granted.
pub claim_once :
    (w w' : World) (q q' : Request) (name name' : String) (job j j' : Job) (prompt prompt' : String)
    (d d' e e' : Disk)
    → claim_op w q name job d ≡ (ok (granted j prompt), d')
    → claim_op w' q' name' j e ≢ (ok (granted j' prompt'), e')
claim_once w w' q q' name name' job j j' prompt prompt' d d' e e' first again =
    let g = (claim_requires w q name job d j prompt d' first).1 in
    let g' = (claim_requires w' q' name' j e j' prompt' e' again).1 in
    cc (granted-is_running w q job j d' g, g'.waiting)
