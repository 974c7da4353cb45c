-- ===== src/Work/Examples.antt =====
-- One work's life on a small store: started, saved, claimed and saved again.
use lean_fm.Common.{
  ℕ, ◌≤◌, String, ◌≡◌, ◌≢◌, refl, true, false, none, some, [], arith, length, get_last?, eq_iff,
  ◌==◌,
}
use lean_fm.Common.Table.{lookup, insert}
use lean_fm.Work.Types.{
  State, checkpointed, cancelled, Identity, context, Job, job_file, Disk, Request, World, Response,
  oversized, granted, cached, saved, start, cancel_response,
}
use lean_fm.Work.Action.{ok, rejected, ◌>>=◌}
use lean_fm.Work.Storage.{
  read, write, path, fit, max_state_bytes, is_id, is_caller, authorize, public, active, reserve,
  release, is_checkpointed,
}
use lean_fm.Work.Submit.{start_op, start_with, submit, fresh_job}
use lean_fm.Work.Cancel.{cancel_op, cancel_job, end_job}
use lean_fm.Work.Claim.{claim_op, claim_with, continue_job, claimed_job, receipt_for}
use lean_fm.Work.Save.{save_op, settle, saved_state, batch_done, add_receipt, saved_response}
use lean_fm.Work.Operate.{operate}
use lean_fm.Work.Sound.{IsSound}
use lean_fm.Work.Sound.Operations.{operate-IsSound}
use lean_fm.Work.Bounds.{write_bounds, read-write, read-write_full}
use lean_fm.Work.Continue.{Grants, claim_requires}
use lean_fm.Work.Progress.{two_stalls_stop, save_replays}
use lean_fm.Work.Requests.{cancel_stops}

abbrev id₁ : String
id₁ = "0123456789abcdef0123456789abcdef"

abbrev tag₁ : String
tag₁ = "0123456789abcdef0123456789abcdef0123456789abcdef0123456789abcdef"

abbrev world : ℕ → String → World
world now checkpoint = record {
  now = now;
  revision = "r1";
  root_tag = tag₁;
  request_token = "aaaaaaaaaaaaaaaaaaaaaaaaaaaaaaaa";
  id_token = id₁;
  claim_token = "claim-token-0001";
  checkpoint_token = checkpoint;
  job_size = λ job. 100;
  provider_size = λ p. 2;
}

abbrev who : Identity
who = record { account = "ann"; owner = tag₁; credential = "c1"; provider = "p1"; model = "m1" }

abbrev ask : Request
ask = record {
  identity = who;
  work_id = "";
  request_id = "request-number-0001";
  chat = true;
  explicit_resume = false;
  batch_size = 16;
  prompt = "do it";
  checkpoint = "";
  restart = false;
  claim = none;
  state = none;
  provider_state = context "{}";
  task_state = record { trace = none; usage = "{}"; rest = "{}" };
  made_progress = false;
  progress = "";
  response = "{}";
}

abbrev blank : Disk
blank = record { files = []; prompts = []; active = none }

-- started
abbrev job₁ : Job
job₁ = fresh_job (world 1 "") ask ask.request_id

abbrev disk₁ : Disk
disk₁ = (start_op (world 1 "") ask blank).1

-- the first batch saved
abbrev c₁ : String
c₁ = "checkpoint-number-1"

abbrev c₂ : String
c₂ = "checkpoint-number-2"

abbrev done : State → Request
done s = record ask { work_id = id₁; claim = some "claim-token-0001"; state = some s }

abbrev batch : World → State → Job → Job
batch w s job = batch_done w (done s) s job

abbrev response_of : World → State → Job → Response
response_of w s job = saved_response (done s) s (batch w s job)

abbrev ended : World → State → Job → Job
ended w s job = add_receipt (response_of w s job) (batch w s job)

abbrev job₂ : Job
job₂ = ended (world 2 c₁) checkpointed job₁

abbrev disk₂ : Disk
disk₂ = (save_op (world 2 c₁) (done checkpointed) job₁ disk₁).1

-- claimed
abbrev resume : Request
resume = record ask { work_id = id₁; checkpoint = c₁ }

abbrev job₃ : Job
job₃ = claimed_job (world 3 "") resume job₂

abbrev disk₃ : Disk
disk₃ = (claim_op (world 3 "") resume id₁ job₂ disk₂).1

-- the second batch saved
abbrev job₄ : Job
job₄ = ended (world 4 c₂) checkpointed job₃

abbrev disk₄ : Disk
disk₄ = (save_op (world 4 c₂) (done checkpointed) job₃ disk₃).1

-- cancelled while it ran, and while it waited
abbrev marked : Job
marked = record job₁ { is_cancelled = true }

abbrev stopped : Job
stopped = end_job who job₂

abbrev disk₅ : Disk
disk₅ = (cancel_op (world 3 "") ask job₂ disk₂).1

abbrev other_name : String
other_name = "another-file-name"

started : start_op (world 1 "") ask blank ≡ (ok (granted job₁ "do it"), disk₁)
unfolding start_op start_with submit write path fit reserve is_id ◌>>=◌ lookup insert active
started = refl

saved₁ :
    save_op (world 2 c₁) (done checkpointed) job₁ disk₁
    ≡ (ok (saved (response_of (world 2 c₁) checkpointed job₁) (public job₂ who)), disk₂)
unfolding start_op start_with submit write path fit reserve is_id ◌>>=◌ lookup insert active save_op
    authorize settle saved_state release public
saved₁ = refl

on_disk₂ : lookup id₁ disk₂.files ≡ some (job_file job₂ 2)
unfolding start_op start_with submit write path fit reserve is_id ◌>>=◌ lookup insert active save_op
    authorize settle saved_state release public
on_disk₂ = refl

claimed : claim_op (world 3 "") resume id₁ job₂ disk₂ ≡ (ok (granted job₃ "do it"), disk₃)
unfolding start_op start_with submit write path fit reserve is_id ◌>>=◌ lookup insert active save_op
    authorize settle saved_state release public claim_op claim_with continue_job receipt_for
claimed = refl

saved₂ :
    save_op (world 4 c₂) (done checkpointed) job₃ disk₃
    ≡ (ok (saved (response_of (world 4 c₂) checkpointed job₃) (public job₄ who)), disk₄)
unfolding start_op start_with submit write path fit reserve is_id ◌>>=◌ lookup insert active save_op
    authorize settle saved_state release public claim_op claim_with continue_job receipt_for
saved₂ = refl

on_disk₄ : lookup id₁ disk₄.files ≡ some (job_file job₄ 4)
unfolding start_op start_with submit write path fit reserve is_id ◌>>=◌ lookup insert active save_op
    authorize settle saved_state release public claim_op claim_with continue_job receipt_for
on_disk₄ = refl

blank-IsSound : IsSound blank
unfolding lookup
blank-IsSound = record { at_name = λ name job time e. absurd cc }

written : write (world 5 "") job₂ blank ≡ (ok job₂, (write (world 5 "") job₂ blank).1)
unfolding start_op start_with submit write path fit reserve is_id ◌>>=◌ lookup insert active save_op
    authorize settle saved_state release public
written = refl

other_name-differs : other_name ≢ job₂.id
other_name-differs e =
    let same : (other_name == job₂.id) ≡ true = (eq_iff other_name job₂.id).1 e in cc

operate-IsSound_example : IsSound (operate (world 1 "") ask start blank).1
operate-IsSound_example = operate-IsSound (world 1 "") ask start blank blank-IsSound

write_bounds_example :
    let d : Disk = (write (world 5 "") job₂ blank).1 in
    (100 ≤ max_state_bytes)
    × (length job₂.receipts ≤ 4)
    × (get_last? job₂.receipts ≡ get_last? job₂.receipts)
    × (lookup id₁ d.files ≡ some (job_file job₂ 5))
    × (lookup other_name d.files ≡ lookup other_name blank.files)
unfolding start_op start_with submit write path fit reserve is_id ◌>>=◌ lookup insert active save_op
    authorize settle saved_state release public
write_bounds_example =
    write_bounds (world 5 "") job₂ job₂ blank (write (world 5 "") job₂ blank).1 written other_name
      other_name-differs

read-write_example :
    read (world 6 "") id₁ (write (world 5 "") job₂ blank).1
    ≡ (ok job₂, (write (world 5 "") job₂ blank).1)
unfolding start_op start_with submit write path fit reserve is_id ◌>>=◌ lookup insert active save_op
    authorize settle saved_state release public
read-write_example =
    read-write (world 5 "") (world 6 "") job₂ job₂ blank (write (world 5 "") job₂ blank).1 written
      refl (omega arith)

abbrev full : World
full = record (world 6 "") { job_size = λ job. max_state_bytes }

read-write_full_example :
    read full id₁ (write (world 5 "") job₂ blank).1
    ≡ (rejected oversized, (write (world 5 "") job₂ blank).1)
unfolding start_op start_with submit write path fit reserve is_id ◌>>=◌ lookup insert active save_op
    authorize settle saved_state release public
read-write_full_example =
    read-write_full (world 5 "") full job₂ job₂ blank (write (world 5 "") job₂ blank).1 written refl

claim_requires_example : (is_caller job₂ who ≡ true) × Grants (world 3 "") resume job₂ job₃ disk₃
claim_requires_example =
    claim_requires (world 3 "") resume id₁ job₂ disk₂ job₃ "do it" disk₃ claimed

two_stalls_stop_example : (public job₄ who).continues ≡ false
two_stalls_stop_example =
    two_stalls_stop (world 2 c₁) (world 3 "") (world 4 c₂) (done checkpointed) resume
      (done checkpointed) id₁ job₁ job₂ job₃ 2 "do it" disk₁ disk₂ disk₂ disk₃ disk₃ disk₄
      (response_of (world 2 c₁) checkpointed job₁) (response_of (world 4 c₂) checkpointed job₃)
      (public job₂ who) (public job₄ who) refl saved₁ on_disk₂ claimed refl saved₂

save_replays_example :
    (resp : Response) × (claim_op (world 5 "") resume id₁ job₄ disk₄
      ≡ (ok (cached resp (public job₄ who)), disk₄))
unfolding start_op start_with submit write path fit reserve is_id ◌>>=◌ lookup insert active save_op
    authorize settle saved_state release public claim_op claim_with continue_job receipt_for
    is_caller
save_replays_example =
    save_replays (world 4 c₂) (world 5 "") (done checkpointed) resume id₁ job₃ job₄ 4 disk₃ disk₄
      disk₄ (response_of (world 4 c₂) checkpointed job₃) (public job₄ who) saved₂ on_disk₄ refl refl
      refl refl

abbrev later : Request
later = record ask { request_id = "request-number-0002" }

cancel_stops_example :
    (stopped.is_cancelled ≡ true)
    × (is_checkpointed stopped.state ≡ false)
    × (claim_op (world 4 "") resume id₁ stopped disk₅ ≢ (ok (granted job₃ "do it"), disk₅))
unfolding start_op start_with submit write path fit reserve is_id ◌>>=◌ lookup insert active save_op
    authorize settle saved_state release public claim_op claim_with continue_job receipt_for
    cancel_op cancel_job
cancel_stops_example =
    cancel_stops (world 3 "") (world 4 "") ask resume id₁ job₂ stopped job₃ 3 (public stopped who)
      true
      (some (
        cancel_response "m1" "{}"
          (public (record job₂ { state = cancelled; is_cancelled = true }) who)))
      "do it" disk₂ disk₅ disk₅ disk₅ refl refl
