-- ===== src/Work/Fit.antt =====
-- What `write` changes in a job to make it fit: only the provider state, the trace and old receipts.
use lean_fm.Common.{
  ℕ, zero, suc, ◌-◌, ◌≤◌, ◌≡◌, refl, ap, List, [], ◌∷◌, arith, ltb, length, drop, length-drop,
  take_last, get_last?, Bool-cases, inl, inr,
}
use lean_fm.Work.Types.{Job, Receipt, World}
use lean_fm.Work.Storage.{fit, drop_receipts, max_state_bytes, bound_provider}

-- The fields that decide what may happen to a job are those of the other.
pub record SameJob (a b : Job) : Type 0 where
  pub id : a.id ≡ b.id
  pub root_tag : a.root_tag ≡ b.root_tag
  pub account : a.account ≡ b.account
  pub owner : a.owner ≡ b.owner
  pub credential : a.credential ≡ b.credential
  pub provider : a.provider ≡ b.provider
  pub model : a.model ≡ b.model
  pub state : a.state ≡ b.state
  pub checkpoint : a.checkpoint ≡ b.checkpoint
  pub claim : a.claim ≡ b.claim
  pub consumed : a.consumed ≡ b.consumed
  pub no_progress : a.no_progress ≡ b.no_progress
  pub is_cancelled : a.is_cancelled ≡ b.is_cancelled
  pub batch : a.batch ≡ b.batch
  pub progress : a.progress ≡ b.progress
  pub revision : a.revision ≡ b.revision
  pub request_id : a.request_id ≡ b.request_id

module _ (w : World) where
  drop_receipts-SameJob : (job : Job) (l : List Receipt) → SameJob (drop_receipts w job l) job
  unfolding drop_receipts
  drop_receipts-SameJob job [] = ground arith
  drop_receipts-SameJob job (r ∷ []) = ground arith
  drop_receipts-SameJob job (r ∷ s ∷ rest) =
      elim (Bool-cases
        (ltb max_state_bytes (w.job_size (record job { receipts = r ∷ s ∷ rest })))) [
          | inl big ↦ rw big (drop_receipts-SameJob job (s ∷ rest))
          | inr fits ↦ rw fits (ground arith)
        ]

  length-drop_receipts :
      (job : Job) (l : List Receipt) → length (drop_receipts w job l).receipts ≤ length l
  unfolding drop_receipts
  length-drop_receipts job [] = omega arith
  length-drop_receipts job (r ∷ []) = omega arith
  length-drop_receipts job (r ∷ s ∷ rest) = ground (arith, length-drop_receipts job (s ∷ rest))

  last-drop_receipts :
      (job : Job) (l : List Receipt) → get_last? (drop_receipts w job l).receipts ≡ get_last? l
  unfolding drop_receipts
  last-drop_receipts job [] = refl
  last-drop_receipts job (r ∷ []) = refl
  last-drop_receipts job (r ∷ s ∷ rest) =
      elim (Bool-cases
        (ltb max_state_bytes (w.job_size (record job { receipts = r ∷ s ∷ rest })))) [
          | inl big ↦ rw big (last-drop_receipts job (s ∷ rest))
          | inr fits ↦ rw fits refl
        ]

  pub fit-SameJob : (job : Job) → SameJob (fit w job) job
  unfolding fit
  fit-SameJob job =
      ground (arith, drop_receipts-SameJob (bound_provider w job) (take_last 4 job.receipts))

  pub length-fit : (job : Job) → length (fit w job).receipts ≤ 4
  unfolding fit
  length-fit job = ground (
    arith,
    length-drop_receipts (bound_provider w job) (take_last 4 job.receipts),
    length-drop (length job.receipts - 4) job.receipts,
  )

last-drop {ℓ} :
    {A : Type ℓ} (n : ℕ) (l : List A) → suc n ≤ length l → get_last? (drop n l) ≡ get_last? l
last-drop n [] h = absurd (omega arith)
last-drop zero (x ∷ l) h = refl
last-drop (suc n) (x ∷ []) h = absurd (omega arith)
last-drop (suc n) (x ∷ y ∷ l) h = last-drop n (y ∷ l) (omega arith)

drop-nil {ℓ} : {A : Type ℓ} (n : ℕ) → drop {A = A} n [] ≡ []
drop-nil zero = refl
drop-nil (suc n) = refl

last-take_last {ℓ} :
    {A : Type ℓ} (n : ℕ) (l : List A) → get_last? (take_last (suc n) l) ≡ get_last? l
last-take_last n [] = ap get_last? (drop-nil (0 - suc n))
last-take_last n (x ∷ l) = last-drop (length (x ∷ l) - suc n) (x ∷ l) (omega arith)

pub last-fit : (w : World) (job : Job) → get_last? (fit w job).receipts ≡ get_last? job.receipts
unfolding fit
last-fit w job = ground (
  arith,
  last-drop_receipts w (bound_provider w job) (take_last 4 job.receipts),
  last-take_last 3 job.receipts,
)
