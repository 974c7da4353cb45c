-- ===== src/Work/Finish.antt =====
-- What a successful `save` has checked, stored and returned.
use lean_fm.Common.{
  ℕ, ◌+◌, String, ◌≡◌, Bool, true, false, Option, none, some, if◌then◌else◌, arith, ◌&&◌, eq_iff,
  ap,
}
use lean_fm.Common.Table.{lookup, lookup-insert_self}
use lean_fm.Work.Types.{
  Disk, Job, World, Request, Reply, Response, Public, State, running, job_file, saved,
}
use lean_fm.Work.Action.{ok, pure, ◌>>=◌, ◌>>◌}
use lean_fm.Work.Storage.{fit, is_checkpointed, without, reserve, release, lease_time, public}
use lean_fm.Work.Fit.{SameJob, fit-SameJob}
use lean_fm.Work.Inversion.{bind-ok, or_raise-ok, guard-ok, authorize-ok}
use lean_fm.Work.Bounds.{write-ok}
use lean_fm.Work.Save.{
  saved_response, add_receipt, same_claim, is_running, batch_done, settle, save_op, final_state,
}

-- What stands behind a successful `save`.
pub record Saves (w : World) (q : Request) (job : Job) (d : Disk) (r : Response) (p : Public)
    (d' : Disk) : Type 0 where
  pub was_running : job.state ≡ running
  pub held_claim : q.claim ≡ some job.claim
  pub asked : State
  pub asked_for : q.state ≡ some asked
  pub stored : Job
  pub is_stored : stored ≡ fit w (add_receipt r (batch_done w q asked job))
  pub shown : p ≡ public stored q.identity
  pub on_disk : lookup stored.id d'.files ≡ some (job_file stored w.now)
  pub lease_kept :
      is_checkpointed stored.state ≡ true
      → d'.active ≡ some (record { id = stored.id; expires = w.now + lease_time })
  pub lease_left : is_checkpointed stored.state ≡ false → d'.active ≡ without stored.id d.active

same_claim-eq : (o : Option String) (c : String) → same_claim o c ≡ true → o ≡ some c
same_claim-eq none c h = cc
same_claim-eq (some x) c h = ap some ((eq_iff x c).0 h)

module _ (w : World) (q : Request) (job : Job) (d : Disk) (r : Response) (p : Public)
    (d' : Disk) where
  settle-lease :
      (b : Bool) (stored : Job) (e : Disk) (reply : Reply)
      → ((if b then reserve w stored else release stored) >> pure reply) e ≡ (ok (saved r p), d')
      → (reply ≡ saved r p)
        × (d'.files ≡ e.files)
        × (b ≡ true → d'.active ≡ some (record { id = stored.id; expires = w.now + lease_time }))
        × (b ≡ false → d'.active ≡ without stored.id e.active)
  unfolding reserve release ◌>>=◌
  settle-lease b stored e reply h = ground arith

  settle-Saves :
      (asked : State)
      → job.state ≡ running
      → q.claim ≡ some job.claim
      → q.state ≡ some asked
      → settle w q asked (batch_done w q asked job) d ≡ (ok (saved r p), d')
      → Saves w q job d r p d'
  unfolding settle
  settle-Saves asked ran held known e =
      let (stored, written, e₄) = bind-ok _ _ d e in
      let s = write-ok w _ stored d written in
      let (reply, files, kept, left) = settle-lease _ stored _ _ e₄ in
      let same : saved_response q asked (batch_done w q asked job) ≡ r = cc reply in
      record {
        was_running = ran;
        held_claim = held;
        asked = asked;
        asked_for = known;
        stored = stored;
        is_stored = rw (← same) s.fitted;
        shown = cc reply;
        on_disk = cc (files, s.files, lookup-insert_self stored.id (job_file stored w.now) d.files);
        lease_kept = kept;
        lease_left = λ h. rw (← s.active) (left h);
      }

  final_state-some :
      (o : Option State) (asked : State) → final_state o ≡ some asked → o ≡ some asked
  final_state-some o asked h = ground arith

  may_save :
      (is_running job.state && same_claim q.claim job.claim) ≡ true
      → (job.state ≡ running) × (q.claim ≡ some job.claim)
  may_save h = (ground arith, same_claim-eq q.claim job.claim (ground arith))

  pub save-Saves : save_op w q job d ≡ (ok (saved r p), d') → Saves w q job d r p d'
  unfolding save_op
  save-Saves e =
      let (_, _, e₁) = authorize-ok _ _ _ _ d e in
      let (ran, e₂) = guard-ok _ _ _ d e₁ in
      let (asked, known, e₃) = or_raise-ok _ _ _ d e₂ in
      let (now_running, held) = may_save (ground arith) in
      settle-Saves asked now_running held (final_state-some q.state asked known) e₃

-- The job on disk after a `save` has the fields that `batch_done` gives it.
pub stored-SameJob :
    {w : World} {q : Request} {job : Job} {d : Disk} {r : Response} {p : Public} {d' : Disk}
    (s : Saves w q job d r p d')
    → SameJob s.stored (batch_done w q s.asked job)
stored-SameJob {w} {q} {job} {d} {r} s =
    let done = add_receipt r (batch_done w q s.asked job) in
    let same : SameJob s.stored done = rw s.is_stored (fit-SameJob w done) in ground arith

-- Whatever file now lies under the job's name is that job.
pub stored-eq :
    {w : World} {q : Request} {job : Job} {d : Disk} {r : Response} {p : Public} {d' : Disk}
    (s : Saves w q job d r p d') (found : Job) (time : ℕ)
    → lookup job.id d'.files ≡ some (job_file found time)
    → found ≡ s.stored
stored-eq s found time h = ground (arith, s.on_disk, (stored-SameJob s).id)
