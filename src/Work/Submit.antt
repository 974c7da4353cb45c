-- ===== src/Work/Submit.antt =====
-- The operations `guard` and `start` of `WorkStore.operate`.
use lean_fm.Common.{
  String, Bool, false, not, ◌&&◌, ◌||◌, Option, none, some, [], eqb, if◌then◌else◌, ◌==◌, is_empty,
  get_or, is_some, get_last?, ◌+s◌,
}
use lean_fm.Common.Table.{lookup, insert}
use lean_fm.Work.Types.{
  running, context, Response, Receipt, Job, Lease, File, job_file, index_file, Disk, Request, World,
  continuing, invalid_request_id, still_running, reserved, Reply, allowed, granted, cached,
}
use lean_fm.Work.Action.{Action, pure, gets, or_raise, raise_if, modify, ◌>>=◌, ◌>>◌}
use lean_fm.Work.Storage.{is_id, read, write, put_file, active, reserve, authorize, public}

abbrev pub index_name : String → String
index_name request_id = "request-" +s request_id

-- The entry "id" of a file.
abbrev pub file_id : File → String
file_id (job_file job _) = job.id
file_id (index_file id) = id

abbrev pub receipt_response : Option Receipt → Option Response
receipt_response none = none
receipt_response (some r) = some r.response

-- `job["receipts"][-1]["response"]`, or `None`
abbrev pub last_response : Job → Option Response
last_response job = receipt_response (get_last? job.receipts)

abbrev pub indexed : String → Disk → Option String
indexed request_id d = elim (lookup (index_name request_id) d.files) [
  | none ↦ none
  | some f ↦ some (file_id f)
]

-- The work that a guarded chat turn may belong to.
abbrev pub allowed_id : Request → Disk → String
allowed_id q d =
    if is_empty q.work_id && is_id q.request_id
    then get_or (indexed q.request_id d) ""
    else q.work_id

abbrev pub may_edit : Request → String → Lease → Job → Bool
may_edit q id l current =
    q.chat
    && id == l.id
    && (q.identity.owner == current.owner && q.identity.account == current.account
        || q.explicit_resume && q.identity.account == current.account)

unfoldable pub guard_with : World → Request → Option Lease → Action Reply
guard_with w q none = pure allowed
guard_with w q (some l) = do
  id ← gets (allowed_id q)
  current ← read w l.id
  raise_if (not (may_edit q id l current)) continuing
  pure allowed

unfoldable pub guard_op : World → Request → Action Reply
unfolding guard_with
guard_op w q = do l ← gets (active w); guard_with w q l

abbrev pub fresh_job : World → Request → String → Job
fresh_job w q request_id = record {
  id = w.id_token;
  request_id = request_id;
  root_tag = w.root_tag;
  account = q.identity.account;
  owner = q.identity.owner;
  credential = q.identity.credential;
  provider = q.identity.provider;
  model = q.identity.model;
  state = running;
  batch = 0;
  batch_size = if eqb q.batch_size 4 then 4 else 16;
  checkpoint = "";
  claim = w.claim_token;
  consumed = "start";
  provider_state = context "{}";
  task_state = record { trace = none; usage = "{}"; rest = "{}" };
  receipts = [];
  no_progress = 0;
  is_cancelled = false;
  revision = w.revision;
  progress = "Starting requested work";
}

-- The request was submitted before: its last response, if there is one.
unfoldable pub resubmitted : World → Request → String → Action Reply
resubmitted w q id = do
  job ← read w id
  authorize job q.identity false
  response ← or_raise (last_response job) still_running
  pure (cached response (public job q.identity))

unfoldable pub submit : World → Request → String → Action Reply
submit w q request_id = do
  l ← gets (active w)
  raise_if (is_some l) reserved
  modify (λ d. record d { prompts = insert w.id_token q.prompt d.prompts })
  job ← write w (fresh_job w q request_id)
  modify (put_file (index_name request_id) (index_file w.id_token))
  reserve w job
  pure (granted job q.prompt)

unfoldable pub start_with : World → Request → String → Option String → Action Reply
unfolding resubmitted submit
start_with w q request_id none = submit w q request_id
start_with w q request_id (some id) = resubmitted w q id

unfoldable pub start_op : World → Request → Action Reply
unfolding start_with
start_op w q = do
  let request_id = if is_empty q.request_id then w.request_token else q.request_id
  raise_if (not (is_id request_id)) invalid_request_id
  index ← gets (indexed request_id)
  start_with w q request_id index
