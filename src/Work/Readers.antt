-- ===== src/Work/Readers.antt =====
-- The parts of `operate` that only look: they keep every property of the disk.
use lean_fm.Common.{ℕ, String, ◌≡◌, refl, Bool, Option, none, some, [], ◌∷◌, is_empty, ◌&&◌}
use lean_fm.Common.Table.{Table}
use lean_fm.Work.Types.{
  Identity, Disk, Reason, Job, World, File, Lease, Request, Operation, guard, status, cancel,
}
use lean_fm.Work.Action.{pure, gets, raise_if, ◌>>=◌}
use lean_fm.Work.Storage.{read, authorize, active}
use lean_fm.Work.Keeps.{
  Keeps-gets, Keeps, Keeps-pure, Keeps-or_raise, Keeps-if, Keeps-bind, Keeps-guard, disk-read,
}
use lean_fm.Work.Cancel.{status_op}
use lean_fm.Work.Operate.{
  wanted, reads_only, is_job_name, consider, latest, search_latest, target_with, target, on_job,
  on_target, on_work, operate,
}
use lean_fm.Work.Submit.{guard_with, guard_op, resubmitted}

module _ {P : Disk → Type 0} where
  pub read-Keeps : (w : World) (name : String) → Keeps P (read w name)
  read-Keeps w name = record { at = λ d h. rw disk-read h }

  pub raise_if-Keeps : (b : Bool) (r : Reason) → Keeps P (raise_if b r)
  unfolding raise_if
  raise_if-Keeps b r = record { at = λ d h. h }

  pub authorize-Keeps : (job : Job) (i : Identity) (b : Bool) → Keeps P (authorize job i b)
  unfolding authorize
  authorize-Keeps job i b = Keeps-guard _ _ _ λ _. raise_if-Keeps _ _

  pub guard_with-Keeps : (w : World) (q : Request) (l : Option Lease) → Keeps P (guard_with w q l)
  unfolding guard_with
  guard_with-Keeps w q none = Keeps-pure _
  guard_with-Keeps w q (some l) =
      Keeps-gets _ _
        λ id. Keeps-bind _ _ (read-Keeps w l.id) λ current. Keeps-guard _ _ _ λ _. Keeps-pure _

  pub guard_op-Keeps : (w : World) (q : Request) → Keeps P (guard_op w q)
  unfolding guard_op
  guard_op-Keeps w q = Keeps-gets _ _ λ l. guard_with-Keeps w q l

  pub resubmitted-Keeps : (w : World) (q : Request) (id : String) → Keeps P (resubmitted w q id)
  unfolding resubmitted
  resubmitted-Keeps w q id =
      search (Keeps-pure, Keeps-or_raise, Keeps-bind, read-Keeps, authorize-Keeps)

  pub status_op-Keeps :
      (w : World) (q : Request) (name : String) (job : Job) → Keeps P (status_op w q name job)
  unfolding status_op
  status_op-Keeps w q name job =
      Keeps-bind _ _ (authorize-Keeps _ _ _)
        λ _. Keeps-gets _ _ λ text. Keeps-bind _ _ (Keeps-or_raise _ _) λ prompt. Keeps-pure _

  pub latest-Keeps :
      (w : World) (account : String) (files : Table File) (best : Option (ℕ × String))
      → Keeps P (latest w account files best)
  unfolding latest
  latest-Keeps w account [] best = Keeps-pure _
  latest-Keeps w account ((name, file) ∷ rest) best =
      Keeps-if (is_job_name name)
        (read w name >>= λ job. latest w account rest (consider account file best job))
        (latest w account rest best)
        (λ _.
          Keeps-bind _ _ (read-Keeps w name)
            λ job. latest-Keeps w account rest (consider account file best job))
        (λ _. latest-Keeps w account rest best)

  pub search_latest-Keeps : (w : World) (q : Request) → Keeps P (search_latest w q)
  unfolding search_latest
  search_latest-Keeps w q =
      Keeps-gets _ _
        λ files. Keeps-bind _ _ (latest-Keeps w q.identity.account files none) λ best. Keeps-pure _

  pub Keeps-of_gets : {A : Type 0} (f : Disk → A) → Keeps P (gets f)
  unfolding gets
  Keeps-of_gets f = record { at = λ d h. h }

  pub target_with-Keeps :
      (w : World) (q : Request) (op : Operation) (l : Option Lease) → Keeps P (target_with w q op l)
  unfolding target_with
  target_with-Keeps w q op (some l) = Keeps-pure _
  target_with-Keeps w q cancel none = Keeps-of_gets _
  target_with-Keeps w q op none = search_latest-Keeps w q

  pub target-Keeps : (w : World) (q : Request) (op : Operation) → Keeps P (target w q op)
  unfolding target
  target-Keeps w q op =
      Keeps-if (is_empty (wanted q) && reads_only op)
        (gets (active w) >>= λ l. target_with w q op l) (pure (some (wanted q)))
        (λ _. Keeps-gets _ _ λ l. target_with-Keeps w q op l) (λ _. Keeps-pure _)

-- The operation `status` changes no file, no prompt and no lease, whether it answers or raises.
pub status_reads_only : (w : World) (q : Request) (d : Disk) → (operate w q status d).1 ≡ d
unfolding operate on_work on_target on_job
status_reads_only w q d =
    (Keeps-guard {P = λ e. e ≡ d} _ _ _
        λ _. Keeps-bind _ _ (target-Keeps w q status) λ o. on_status o).at
      d refl
  where
    on_status : (o : Option String) → Keeps (λ e. e ≡ d) (on_target w q status o)
    on_status none = Keeps-pure _
    on_status (some id) =
        Keeps-gets _ _
          λ name. Keeps-bind _ _ (read-Keeps w name) λ job. status_op-Keeps w q name job

-- The operation `guard` changes nothing either.
pub guard_reads_only : (w : World) (q : Request) (d : Disk) → (operate w q guard d).1 ≡ d
unfolding operate
guard_reads_only w q d = (guard_op-Keeps {P = λ e. e ≡ d} w q).at d refl
