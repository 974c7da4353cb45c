-- ===== src/Work/Requests.antt =====
-- Starting work: one task at a time, and one job for each request. Cancelling work that waits.
use lean_fm.Common.{
  subst, is_empty, ℕ, ◌<◌, String, ◌≡◌, ◌≢◌, refl, Bool, true, false, Option, none, some,
  if◌then◌else◌, arith, ◌==◌, eq_iff, get_last?, sym, ap, ◌∙◌,
}
use lean_fm.Common.Table.{lookup, insert, lookup-insert, lookup-insert_self}
use lean_fm.Work.Types.{
  Disk, Job, World, Lease, Request, Response, Public, Identity, job_file, index_file, granted,
  cancel_done,
}
use lean_fm.Work.Action.{status_of, ok, rejected, ◌>>=◌}
use lean_fm.Work.Storage.{
  read, fit, max_state_bytes, is_id, is_caller, authorize, is_checkpointed, release, live, active,
}
use lean_fm.Work.Fit.{SameJob, fit-SameJob, last-fit}
use lean_fm.Work.Inversion.{
  bind-ok, guard-ok, authorize-ok, gets-ok, modify-ok, reserve-ok, pure-ok,
}
use lean_fm.Work.Continue.{claim_requires}
use lean_fm.Work.Types.{still_running, reserved}
use lean_fm.Work.Submit.{start_op, start_with, submit, resubmitted, fresh_job, indexed, index_name}
use lean_fm.Work.Operate.{is_job_name}
use lean_fm.Work.Bounds.{write-ok}
use lean_fm.Work.Claim.{claim_op}
use lean_fm.Work.Cancel.{adopt, cancel_op, cancel_job}

is_id-nonempty : (s : String) → is_id s ≡ true → is_empty s ≡ false
unfolding is_id
is_id-nonempty String.[] h = cc
is_id-nonempty (String.◌∷◌ c s) h = refl

-- While another task's reservation has not expired, a new request is refused with status 409, and
-- nothing is written.
pub start_reserved :
    (w : World) (q : Request) (l : Lease) (d : Disk)
    → is_id q.request_id ≡ true
    → indexed q.request_id d ≡ none
    → active w d ≡ some l
    → (start_op w q d ≡ (rejected reserved, d)) × (status_of reserved ≡ 409)
unfolding start_op start_with submit status_of ◌>>=◌
start_reserved w q l d valid new live =
    (rw (is_id-nonempty q.request_id valid, valid, new, live), refl)

-- A hexadecimal name is no index name.
index-ne-hex : (id request_id : String) → is_job_name id ≡ true → index_name request_id ≢ id
index-ne-hex id request_id hex e =
    let h : is_job_name (index_name request_id) ≡ true =
      subst (λ n. is_job_name n ≡ true) (sym e) hex in
    ground arith

-- What a granted `start` has stored.
record Submits (w : World) (q : Request) (j : Job) (d d' : Disk) : Type 0 where
  is_stored : j ≡ fit w (fresh_job w q q.request_id)
  is_named : is_id j.id ≡ true
  files :
      d'.files
      ≡ insert
          (index_name q.request_id)
          (index_file w.id_token)
          (insert j.id (job_file j w.now) d.files)

submit-Submits :
    (w : World) (q : Request) (j : Job) (prompt : String) (d d' : Disk)
    → submit w q q.request_id d ≡ (ok (granted j prompt), d')
    → Submits w q j d d'
unfolding submit
submit-Submits w q j prompt d d' e =
    let (_, e₁) = guard-ok _ _ _ d (gets-ok _ _ d e) in
    let e₂ = modify-ok _ _ d e₁ in
    let (stored, written, e₃) = bind-ok _ _ _ e₂ in
    let s = write-ok w _ stored _ written in
    let (reply, disk) = pure-ok _ _ (reserve-ok w stored _ _ (modify-ok _ _ _ e₃)) in
    let same : stored ≡ j = ground arith in
    record {
      is_stored = sym same ∙ s.fitted;
      is_named = rw (← same) s.is_named;
      files = cc (ap (λ (x : Disk). x.files) disk, same, s.files);
    }

start-Submits :
    (w : World) (q : Request) (j : Job) (prompt : String) (d d' : Disk)
    → is_id q.request_id ≡ true
    → indexed q.request_id d ≡ none
    → start_op w q d ≡ (ok (granted j prompt), d')
    → Submits w q j d d'
unfolding start_op start_with
start-Submits w q j prompt d d' valid new e =
    let (_, e₁) = guard-ok _ _ _ d e in
    let id : String = if is_empty q.request_id then w.request_token else q.request_id in
    let same : id ≡ q.request_id = rw (is_id-nonempty q.request_id valid) in
    let e₂ : start_with w q q.request_id (indexed q.request_id d) d ≡ (ok (granted j prompt), d') =
      subst (λ (x : String). start_with w q x (indexed x d) d ≡ (ok (granted j prompt), d')) same
        (gets-ok _ _ d e₁) in
    submit-Submits w q j prompt d d' (
      subst (λ (o : Option String). start_with w q q.request_id o d ≡ (ok (granted j prompt), d'))
        new e₂)

-- A request that was started, and is submitted again by the same caller, starts nothing: while it
-- has no result the answer is status 409, and the disk stays as it is.
pub start_twice :
    (w w' : World) (q : Request) (j : Job) (prompt : String) (d d' : Disk)
    → is_id q.request_id ≡ true
    → is_job_name w.id_token ≡ true
    → indexed q.request_id d ≡ none
    → start_op w q d ≡ (ok (granted j prompt), d')
    → is_caller j q.identity ≡ true
    → w'.root_tag ≡ w.root_tag
    → w'.job_size j < max_state_bytes
    → start_op w' q d' ≡ (rejected still_running, d')
unfolding start_op start_with resubmitted read authorize ◌>>=◌
start_twice w w' q j prompt d d' valid hex new first caller root small =
    let s = start-Submits w q j prompt d d' valid new first in
    let fresh = fresh_job w q q.request_id in
    let same : SameJob j fresh = rw s.is_stored (fit-SameJob w fresh) in
    let no_receipts : get_last? j.receipts ≡ none = rw s.is_stored (last-fit w fresh) in
    let at_index : lookup (index_name q.request_id) d'.files ≡ some (index_file w.id_token) =
      rw (s.files, lookup-insert_self) in
    let index : indexed q.request_id d' ≡ some w.id_token = rw (at_index, indexed) in
    let other : (index_name q.request_id == w.id_token) ≡ false = ground (
      arith,
      eq_iff (index_name q.request_id) w.id_token,
      index-ne-hex w.id_token q.request_id hex,
    ) in
    let job_there : lookup w.id_token d'.files ≡ some (job_file j w.now) =
      rw (s.files, lookup-insert, other)
        (cc (lookup-insert_self j.id (job_file j w.now) d.files, same.id)) in
    rw (is_id-nonempty q.request_id valid, valid, index)
      (ground (arith, s.is_named, eq_iff j.root_tag w'.root_tag, eq_iff j.owner q.identity.owner))

-- What `cancel_job` hands to `write`.
cancel_job-marks :
    (i : Identity) (job : Job) (d : Disk) {changed : Job}
    → (cancel_job i job d).0 ≡ ok changed
    → (changed.is_cancelled ≡ true)
      × (changed.id ≡ job.id)
      × (is_checkpointed changed.state ≡ false)
unfolding cancel_job release ◌>>=◌
cancel_job-marks i job d e = ground arith

-- After a `cancel` that returns, the job on disk is marked as cancelled and does not wait, and no
-- claim of it is granted, with any checkpoint and by any caller.
pub cancel_stops :
    (w w' : World) (q q' : Request) (name : String) (job found j : Job) (time : ℕ) (p : Public)
    (n : Bool) (resp : Option Response) (prompt : String) (d d' e e' : Disk)
    → cancel_op w q job d ≡ (ok (cancel_done p n resp), d')
    → lookup job.id d'.files ≡ some (job_file found time)
    → (found.is_cancelled ≡ true)
      × (is_checkpointed found.state ≡ false)
      × (claim_op w' q' name found e ≢ (ok (granted j prompt), e'))
unfolding cancel_op
cancel_stops w w' q q' name job found j time p n resp prompt d d' e e' cancelled_now on_disk =
    let (_, _, e₁) = authorize-ok _ _ _ _ d cancelled_now in
    let (changed, marked, e₂) = bind-ok _ _ d e₁ in
    let (stored, written, e₃) = bind-ok _ _ _ e₂ in
    let s = write-ok w changed stored _ written in
    let (_, disk) = pure-ok _ _ e₃ in
    let marks = cancel_job-marks (adopt q.identity job) job d marked in
    let kept : SameJob stored changed = rw s.fitted (fit-SameJob w changed) in
    let there : lookup stored.id d'.files ≡ some (job_file stored w.now) = cc (
      ap (λ (x : Disk). x.files) disk,
      s.files,
      lookup-insert_self stored.id (job_file stored w.now)
          (cancel_job (adopt q.identity job) job d).1.files,
    ) in
    let same : found ≡ stored = ground (arith, there, kept.id, marks) in
    let stopped : found.is_cancelled ≡ true = rw same (kept.is_cancelled ∙ marks.0) in
    (
      stopped,
      rw (same, kept.state) marks.2,
      λ claimed.
          cc (stopped, (claim_requires w' q' name found e j prompt e' claimed).1.not_cancelled),
    )
