-- ===== src/Work/Claim.antt =====
-- The operation `claim` of `WorkStore.operate`: to go on with a checkpoint.
use lean_fm.Common.{
  String, Bool, false, not, ◌&&◌, Option, none, some, List, [], ◌∷◌, if◌then◌else◌, ◌==◌,
}
use lean_fm.Common.Table.{lookup}
use lean_fm.Work.Types.{
  running, restart, Response, Receipt, Job, Lease, Request, World, invalid_checkpoint,
  was_cancelled, stale_checkpoint, other_writer, files_changed, prompt_missing, Reply, granted,
  cached,
}
use lean_fm.Work.Action.{Action, pure, gets, or_raise, raise_if, ◌>>=◌, ◌>>◌}
use lean_fm.Work.Storage.{is_id, is_checkpointed, write, active, reserve, authorize, public}

unfoldable pub receipt_for : String → List Receipt → Option Response
receipt_for checkpoint [] = none
receipt_for checkpoint (r ∷ rest) =
    if r.consumed == checkpoint then some r.response else receipt_for checkpoint rest

abbrev pub other_lease : Job → Option Lease → Bool
other_lease job none = false
other_lease job (some l) = not (l.id == job.id)

-- The job as it runs on: new owner, new claim, its checkpoint consumed.
abbrev pub claimed_job : World → Request → Job → Job
claimed_job w q job = record job {
  provider_state = if job.revision == w.revision then job.provider_state else restart;
  owner = q.identity.owner;
  state = running;
  claim = w.claim_token;
  consumed = q.checkpoint;
}

unfoldable pub continue_job : World → Request → String → Job → Action Reply
continue_job w q name job = do
  raise_if job.is_cancelled was_cancelled
  raise_if (not (is_checkpointed job.state && job.checkpoint == q.checkpoint)) stale_checkpoint
  l ← gets (active w)
  raise_if (other_lease job l) other_writer
  raise_if (not (job.revision == w.revision) && not q.restart) files_changed
  stored ← write w (claimed_job w q job)
  reserve w stored
  text ← gets (λ d. lookup name d.prompts)
  prompt ← or_raise text prompt_missing
  pure (granted stored prompt)

unfoldable pub claim_with : World → Request → String → Job → Option Response → Action Reply
unfolding continue_job
claim_with w q name job (some response) = pure (cached response (public job q.identity))
claim_with w q name job none = continue_job w q name job

unfoldable pub claim_op : World → Request → String → Job → Action Reply
unfolding claim_with
claim_op w q name job = do
  authorize job q.identity q.explicit_resume
  raise_if (not (is_id q.checkpoint)) invalid_checkpoint
  claim_with w q name job (receipt_for q.checkpoint job.receipts)
