-- ===== src/Work/Storage.antt =====
-- `path`, `read`, `write`, `active`, `reserve`, `release`, `authorize` and `public` of `WorkStore`.
use lean_fm.Common.{
  ℕ, ◌+◌, ◌*◌, ◌^◌, String, Bool, true, false, not, ◌&&◌, Option, none, some, List, [], ◌∷◌, ltb,
  leb, if◌then◌else◌, ◌==◌, is_empty, str_len, all_chars, is_id_char, is_hex, take_last,
}
use lean_fm.Common.Table.{lookup, insert}
use lean_fm.Work.Types.{
  State, checkpointed, Identity, restart, Public, Receipt, Job, Lease, File, job_file, index_file,
  Disk, World, invalid_identifier, no_such_work, oversized, other_root, metadata_exceeded,
  other_caller, login_ended,
}
use lean_fm.Work.Action.{gets, or_raise, Action, pure, raise, raise_if, modify, ◌>>=◌, ◌>>◌}

-- [A-Za-z0-9_-]{16,80}
unfoldable pub is_id : String → Bool
is_id s = leb 16 (str_len s) && leb (str_len s) 80 && all_chars is_id_char s

-- [0-9a-f]{64}
unfoldable pub is_tag : String → Bool
is_tag s = leb 64 (str_len s) && leb (str_len s) 64 && all_chars is_hex s

-- 30 seconds
abbrev pub lease_time : ℕ
lease_time = 30 * 10 ^ 9

abbrev pub max_state_bytes : ℕ
max_state_bytes = 2 * 1024 * 1024

-- The stem of the file that `path` names.
unfoldable pub path : String → Action String
path identifier = raise_if (not (is_id identifier)) invalid_identifier >> pure identifier

-- An index file has no entry "root_tag".
abbrev pub of_root : World → File → Action Job
of_root w (job_file job _) = raise_if (not (job.root_tag == w.root_tag)) other_root >> pure job
of_root w (index_file _) = raise other_root

-- Too long to be read back: a job's file is its JSON text and a line feed. An index is short.
abbrev pub is_oversized : World → File → Bool
is_oversized w (job_file job _) = ltb max_state_bytes (w.job_size job + 1)
is_oversized w (index_file _) = false

unfoldable pub read : World → String → Action Job
unfolding path
read w identifier = do
  name ← path identifier
  found ← gets (λ d. lookup name d.files)
  file ← or_raise found no_such_work
  raise_if (is_oversized w file) oversized
  of_root w file

-- A provider state of more than 1 MiB is dropped.
abbrev pub bound_provider : World → Job → Job
bound_provider w job =
    if ltb (1024 * 1024) (w.provider_size job.provider_state)
    then record job { provider_state = restart }
    else job

-- `while len(body) > MAX_STATE_BYTES and len(receipts) > 1: receipts.pop(0)`
unfoldable pub drop_receipts : World → Job → List Receipt → Job
drop_receipts w job [] = record job { receipts = [] }
drop_receipts w job (r ∷ []) = record job { receipts = r ∷ [] }
drop_receipts w job (r ∷ s ∷ rest) =
    if ltb max_state_bytes (w.job_size (record job { receipts = r ∷ s ∷ rest }))
    then drop_receipts w job (s ∷ rest)
    else record job { receipts = r ∷ s ∷ rest }

abbrev pub drop_context : World → Job → Job
drop_context w job =
    if ltb max_state_bytes (w.job_size job)
    then record job {
      provider_state = restart;
      task_state = record job.task_state { trace = none };
    }
    else job

-- What `write` stores for a job, if that fits.
unfoldable pub fit : World → Job → Job
unfolding drop_receipts
fit w job = drop_context w (drop_receipts w (bound_provider w job) (take_last 4 job.receipts))

abbrev pub put_file : String → File → Disk → Disk
put_file name file d = record d { files = insert name file d.files }

-- The job object is changed in place, so the caller goes on with what was stored.
unfoldable pub write : World → Job → Action Job
unfolding path
write w job = do
  let stored = fit w job
  raise_if (ltb max_state_bytes (w.job_size stored)) metadata_exceeded
  name ← path stored.id
  modify (put_file name (job_file stored w.now))
  pure stored

-- A lease that has not expired.
abbrev pub live : ℕ → Option Lease → Option Lease
live now none = none
live now (some l) = if ltb now l.expires then some l else none

unfoldable pub active : World → Disk → Option Lease
active w d = live w.now d.active

unfoldable pub reserve : World → Job → Action (Unit {0})
reserve w job =
    modify λ d. record d { active = some (record { id = job.id; expires = w.now + lease_time }) }

abbrev pub without : String → Option Lease → Option Lease
without id none = none
without id (some l) = if l.id == id then none else some l

unfoldable pub release : Job → Action (Unit {0})
release job = modify λ d. record d { active = without job.id d.active }

-- One turn of the loop in `authorize`.
abbrev pub matches : String → String → Bool
matches given recorded = not (is_empty given) && recorded == given

unfoldable pub is_caller : Job → Identity → Bool
is_caller job i =
    matches i.account job.account
    && matches i.credential job.credential
    && matches i.provider job.provider
    && matches i.model job.model

unfoldable pub authorize : Job → Identity → Bool → Action (Unit {0})
unfolding is_caller
authorize job i allow_new_session =
    raise_if (not (is_caller job i)) other_caller
    >> raise_if (not (job.owner == i.owner) && not allow_new_session) login_ended

abbrev pub is_checkpointed : State → Bool
is_checkpointed checkpointed = true
is_checkpointed _ = false

unfoldable pub public : Job → Identity → Public
public job i = record {
  id = job.id;
  state = job.state;
  checkpoint = job.checkpoint;
  batch = job.batch;
  continues = is_checkpointed job.state;
  progress = job.progress;
  is_cancelled = job.is_cancelled;
  requires_resume = not (job.owner == i.owner);
}
