-- ===== src/Work/Cancel.antt =====
-- The operations `status` and `cancel` of `WorkStore.operate`.
use lean_fm.Common.{String, true, [], ◌∷◌, ◌++◌, if◌then◌else◌}
use lean_fm.Common.Table.{lookup}
use lean_fm.Work.Types.{
  cancelled, Identity, cancel_response, Job, Request, World, prompt_missing, Reply, reported,
  cancel_done,
}
use lean_fm.Work.Action.{gets, Action, pure, or_raise, ◌>>=◌, ◌>>◌}
use lean_fm.Work.Storage.{is_checkpointed, write, release, authorize, public}
use lean_fm.Work.Submit.{last_response}

-- The identity with which `status` and `cancel` authorize: the job's own credential and model.
abbrev pub adopt : Identity → Job → Identity
adopt i job = record i { credential = job.credential; provider = job.provider; model = job.model }

unfoldable pub status_op : World → Request → String → Job → Action Reply
status_op w q name job = do
  let i = adopt q.identity job
  authorize job i true
  text ← gets (λ d. lookup name d.prompts)
  prompt ← or_raise text prompt_missing
  pure (reported (public job i) (last_response job) job.request_id job.model prompt)

-- `cancel` of work that waits between batches ends it with a response of its own.
abbrev pub end_job : Identity → Job → Job
end_job i job =
    let ended = record job { state = cancelled; is_cancelled = true } in
    record ended {
      receipts =
          job.receipts
          ++ record {
            consumed = job.checkpoint;
            response = cancel_response job.model job.task_state.usage (public ended i);
          }
            ∷ [];
    }

unfoldable pub cancel_job : Identity → Job → Action Job
cancel_job i job =
    if is_checkpointed job.state
    then (release job >> pure (end_job i job))
    else pure (record job { is_cancelled = true })

unfoldable pub cancel_op : World → Request → Job → Action Reply
unfolding cancel_job
cancel_op w q job = do
  let i = adopt q.identity job
  authorize job i q.explicit_resume
  changed ← cancel_job i job
  stored ← write w changed
  pure (cancel_done (public stored i) (is_checkpointed job.state) (last_response stored))
