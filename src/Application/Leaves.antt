-- ===== src/Application/Leaves.antt =====
-- What a launch and the end of a supervisor leave.
use lean_fm.Common.{
  ap, ◌∙◌, suc, ◌≤◌, String, ◌≡◌, refl, true, false, Option, none, some, arith, if◌then◌else◌,
  is_some, Bool-cases, inl, inr, ◌⊎◌,
}
use lean_fm.Application.Types.{starting, failed, Record, Profile, World, ok}
use lean_fm.Application.Lifecycle.{is_running, admit, max_live}
use lean_fm.Application.Supervisor.{
  finish, own, Cause, ended_with, no_longer_running, without_capability,
}

-- The new record of a launch is made only where fewer than four applications live and the project's
-- contract allows a preview, and it is not yet running; with it, at most four live.
pub admit_requires :
    (w : World) (owner project : String) (c : Option Profile) (r : Record)
    → admit w owner project c ≡ ok r
    → (suc w.live_applications ≤ max_live)
      × (r.owner ≡ owner)
      × (r.state ≡ starting)
      × (r.revision ≡ w.revision)
      × (is_some c ≡ true)
unfolding admit
admit_requires w owner project none r e = absurd cc
admit_requires w owner project (some c) r e = ground arith

pub not_running : (r : Record) → is_running (no_longer_running r).state ≡ false
not_running r = elim (Bool-cases (is_running r.state)) [
  | inl ran ↦ rw ran refl
  | inr over ↦
      ap
        (λ b.
          is_running
            (if b
              then record r { state = failed; reason = "Application process ended" }
              else r).state)
        over
      ∙ over
]

-- A supervisor that ends leaves the record of a newer instance as it is, and that of its own
-- stopped or failed, without a capability: never running.
pub finish_lem :
    (instance : String) (cause : Cause) (r : Record) (file : Option Record)
    → ((own instance file ≡ false) × (finish instance cause r file ≡ file))
      ⊎ ((left : Record) × (finish instance cause r file ≡ some left)
          × (left.capability ≡ none)
          × (is_running left.state ≡ false))
unfolding finish
finish_lem instance cause r file = elim (Bool-cases (own instance file)) [
  | inl mine ↦ inr (
    without_capability (no_longer_running (ended_with cause r)),
    rw mine refl,
    refl,
    not_running (ended_with cause r),
  )
  | inr newer ↦ inl (newer, rw newer refl)
]
