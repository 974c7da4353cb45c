-- ===== src/Work/Progress.antt =====
-- Work that was cancelled, or makes no progress, does not go on; a saved batch is not run again.
use lean_fm.Common.{
  ℕ, ◌+◌, ◌<◌, String, ◌≡◌, inl, inr, refl, Bool, true, false, some, List, [], ◌∷◌, arith, ◌==◌,
  eq_iff, get_last?, Bool-cases, get_last?-snoc, ap, ◌∙◌,
}
use lean_fm.Common.Table.{lookup}
use lean_fm.Work.Types.{
  Disk, Job, World, Request, Response, Receipt, Public, cancelled, job_file, granted, cached, saved,
}
use lean_fm.Work.Action.{ok, ◌>>=◌}
use lean_fm.Work.Storage.{is_id, is_caller, authorize, without, public}
use lean_fm.Work.Fit.{fit-SameJob, last-fit}
use lean_fm.Work.Continue.{claim_requires}
use lean_fm.Work.Finish.{Saves, save-Saves, stored-SameJob, stored-eq}
use lean_fm.Work.Claim.{receipt_for, claimed_job, claim_with, claim_op}
use lean_fm.Work.Save.{add_receipt, saved_state, batch_done, save_op}

-- The next `save` after a `cancel` ends the work, whatever state it asks for: it is reported as
-- cancelled, offers no checkpoint, does not continue and leaves no lease of this job.
pub save_cancelled :
    (w : World) (q : Request) (job : Job) (d d' : Disk) (r : Response) (p : Public)
    → job.is_cancelled ≡ true
    → save_op w q job d ≡ (ok (saved r p), d')
    → (p.state ≡ cancelled)
      × (p.checkpoint ≡ "")
      × (p.continues ≡ false)
      × (d'.active ≡ without job.id d.active)
unfolding saved_state public
save_cancelled w q job d d' r p stop e =
    let s = save-Saves w q job d r p d' e in
    let same = stored-SameJob s in
    (
      ground (arith, s.shown),
      ground (arith, s.shown),
      ground (arith, s.shown),
      ground (arith, s.lease_left),
    )

-- The count of batches without progress, and when a batch lets the work go on.
save-stalls :
    (w : World) (q : Request) (job : Job) (d d' : Disk) (r : Response) (p : Public)
    → q.made_progress ≡ false
    → (s : Saves w q job d r p d')
    → (s.stored.no_progress ≡ job.no_progress + 1) × (p.continues ≡ true → job.no_progress + 1 < 2)
unfolding saved_state public
save-stalls w q job d d' r p idle s =
    let same = stored-SameJob s in (ground arith, λ h. ground (arith, s.shown))

-- Of two batches that follow one another, with a claim between them, and neither makes progress,
-- the second does not continue: the work stops before a third.
pub two_stalls_stop :
    (w₁ w₂ w₃ : World) (q₁ q₂ q₃ : Request) (name : String) (job found j : Job) (time : ℕ)
    (prompt : String) (d d₁ d₂ d₂' d₃ d₃' : Disk) (r₁ r₃ : Response) (p₁ p₃ : Public)
    → q₁.made_progress ≡ false
    → save_op w₁ q₁ job d ≡ (ok (saved r₁ p₁), d₁)
    → lookup job.id d₁.files ≡ some (job_file found time)
    → claim_op w₂ q₂ name found d₂ ≡ (ok (granted j prompt), d₂')
    → q₃.made_progress ≡ false
    → save_op w₃ q₃ j d₃ ≡ (ok (saved r₃ p₃), d₃')
    → p₃.continues ≡ false
two_stalls_stop w₁ w₂ w₃ q₁ q₂ q₃ name job found j time prompt d d₁ d₂ d₂' d₃ d₃' r₁ r₃ p₁ p₃ idle
      first on_disk claimed idle' second =
    let s = save-Saves w₁ q₁ job d r₁ p₁ d₁ first in
    let (count, _) = save-stalls w₁ q₁ job d d₁ r₁ p₁ idle s in
    let g = (claim_requires w₂ q₂ name found d₂ j prompt d₂' claimed).1 in
    let kept : j.no_progress ≡ found.no_progress =
      rw g.is_stored (fit-SameJob w₂ (claimed_job w₂ q₂ found)).no_progress in
    let same : found ≡ s.stored = stored-eq s found time on_disk in
    let (_, stop) =
      save-stalls w₃ q₃ j d₃ d₃' r₃ p₃ idle' (save-Saves w₃ q₃ j d₃ r₃ p₃ d₃' second) in
    let much : j.no_progress ≡ job.no_progress + 1 =
      kept ∙ ap (λ (x : Job). x.no_progress) same ∙ count in
    not_both p₃.continues (λ h. omega (arith, stop h))
  where
    not_both : (b : Bool) → (b ≡ true → ⊥) → b ≡ false
    not_both true h = absurd (h refl)
    not_both false h = refl

receipt_for-last :
    (c : String) (x : Receipt) (l : List Receipt)
    → get_last? l ≡ some x
    → x.consumed ≡ c
    → (resp : Response) × (receipt_for c l ≡ some resp)
unfolding receipt_for
receipt_for-last c x [] e same = cc
receipt_for-last c x (y ∷ []) e same = (x.response, ground (arith, eq_iff y.consumed c))
receipt_for-last c x (y ∷ z ∷ l) e same = elim (Bool-cases (y.consumed == c)) [
  | inl hit ↦ (y.response, rw hit)
  | inr miss ↦ let (resp, f) = receipt_for-last c x (z ∷ l) e same in (resp, rw miss f)
]

-- Once a batch is saved, a claim of the checkpoint that it consumed, by the same caller in the
-- same session, is answered from a receipt and changes nothing: the batch is not run again.
pub save_replays :
    (w w' : World) (q q' : Request) (name : String) (job found : Job) (time : ℕ) (d d' e : Disk)
    (r : Response) (p : Public)
    → save_op w q job d ≡ (ok (saved r p), d')
    → lookup job.id d'.files ≡ some (job_file found time)
    → is_caller found q'.identity ≡ true
    → found.owner ≡ q'.identity.owner
    → is_id q'.checkpoint ≡ true
    → job.consumed ≡ q'.checkpoint
    → (resp : Response) × (claim_op w' q' name found e
        ≡ (ok (cached resp (public found q'.identity)), e))
unfolding claim_op claim_with authorize ◌>>=◌
save_replays w w' q q' name job found time d d' e r p first on_disk caller owner valid same =
    let s = save-Saves w q job d r p d' first in
    let done = add_receipt r (batch_done w q s.asked job) in
    let eq : found ≡ s.stored = stored-eq s found time on_disk in
    let last : get_last? found.receipts ≡ some (record { consumed = job.consumed; response = r }) =
      rw (eq, s.is_stored) (last-fit w done ∙ get_last?-snoc job.receipts _) in
    let (resp, hit) = receipt_for-last q'.checkpoint _ found.receipts last same in
    (resp, rw (caller, valid, hit) (ground (arith, eq_iff found.owner q'.identity.owner)))
