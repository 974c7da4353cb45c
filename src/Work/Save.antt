-- ===== src/Work/Save.antt =====
-- The operation `save` of `WorkStore.operate`: to end a batch.
use lean_fm.Common.{
  ℕ, ◌+◌, String, Bool, true, false, not, ◌&&◌, Option, none, some, [], ◌∷◌, ◌++◌, leb,
  if◌then◌else◌, ◌==◌, slice_to, ◌+s◌,
}
use lean_fm.Work.Types.{
  State, running, blocked, cancelled, Response, batch_response, Job, Request, World, stale_claim,
  invalid_state, Reply, saved,
}
use lean_fm.Work.Action.{Action, pure, or_raise, raise_if, ◌>>=◌, ◌>>◌}
use lean_fm.Work.Storage.{is_checkpointed, write, reserve, release, authorize, public}

abbrev pub stall_text : String
stall_text =
    "Two batches repeated work without useful new progress. Stopped before another paid request"

-- The state that `save` gives the job, from the state asked for.
unfoldable pub saved_state : State → Job → ℕ → State
saved_state asked job stalls =
    if job.is_cancelled
    then cancelled
    else if is_checkpointed asked && leb 2 stalls
    then blocked
    else asked

abbrev pub is_blocked : State → Bool
is_blocked blocked = true
is_blocked _ = false

abbrev pub warning : String → String
warning text = "```leanfm-result\n{\"status\":\"warn\"}\n```\n\n" +s text

-- The job after a batch, before its receipt is added.
abbrev pub batch_done : World → Request → State → Job → Job
batch_done w q asked job =
    let stalls : ℕ = if q.made_progress then 0 else job.no_progress + 1 in
    let state = saved_state asked job stalls in
    record job {
      batch = job.batch + 1;
      provider_state = q.provider_state;
      task_state = q.task_state;
      no_progress = stalls;
      state = state;
      progress =
          if not job.is_cancelled && is_checkpointed asked && leb 2 stalls
          then stall_text
          else slice_to 2000 q.progress;
      checkpoint = if is_checkpointed state then w.checkpoint_token else "";
      revision = w.revision;
    }

abbrev pub saved_response : Request → State → Job → Response
saved_response q asked done =
    batch_response q.response
      (if is_blocked done.state && is_checkpointed asked
        then some (warning done.progress)
        else none)
      (public done q.identity)

abbrev pub add_receipt : Response → Job → Job
add_receipt response job = record job {
  receipts = job.receipts ++ record { consumed = job.consumed; response = response } ∷ [];
}

unfoldable pub settle : World → Request → State → Job → Action Reply
settle w q asked done = do
  let response = saved_response q asked done
  stored ← write w (add_receipt response done)
  if is_checkpointed stored.state then reserve w stored else release stored
  pure (saved response (public stored q.identity))

abbrev pub is_running : State → Bool
is_running running = true
is_running _ = false

abbrev pub same_claim : Option String → String → Bool
same_claim none held = false
same_claim (some c) held = c == held

-- What `save` accepts: every state but `running`.
abbrev pub final_state : Option State → Option State
final_state none = none
final_state (some running) = none
final_state (some s) = some s

unfoldable pub save_op : World → Request → Job → Action Reply
unfolding settle saved_state
save_op w q job = do
  authorize job q.identity q.explicit_resume
  raise_if (not (is_running job.state && same_claim q.claim job.claim)) stale_claim
  asked ← or_raise (final_state q.state) invalid_state
  settle w q asked (batch_done w q asked job)
