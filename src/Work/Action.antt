-- ===== src/Work/Action.antt =====
-- A method of `WorkStore`: the disk is threaded through, and stays as it was left when a call
-- raises. `status_of` is the HTTP status that each `Rejected` carries.
use lean_fm.Common.{ℕ, Bool, Option, none, some, if◌then◌else◌}
use lean_fm.Work.Types.{
  Reason, Disk, invalid_identifier, no_such_work, other_root, other_caller, login_ended,
  unauthenticated, invalid_request_id, invalid_checkpoint, invalid_state, unknown_operation,
}

pub data Result (A : Type 0) : Type 0 where
  ok : A → Result A
  rejected : Reason → Result A

abbrev pub Action : Type 0 → Type 0
Action A = Disk → Result A × Disk

module _ {A : Type 0} where
  unfoldable pub pure : A → Action A
  pure a d = (ok a, d)

  unfoldable pub raise : Reason → Action A
  raise r d = (rejected r, d)

  unfoldable pub gets : (Disk → A) → Action A
  gets f d = (ok (f d), d)

  unfoldable pub or_raise : Option A → Reason → Action A
  unfolding raise pure
  or_raise none r = raise r
  or_raise (some a) r = pure a

unfoldable pub raise_if : Bool → Reason → Action (Unit {0})
raise_if b r d = (if b then rejected r else ok tt, d)

unfoldable pub modify : (Disk → Disk) → Action (Unit {0})
modify f d = (ok tt, f d)

abbrev pub and_then : {A B : Type 0} → Result A → (A → Action B) → Action B
and_then (ok a) f d = f a d
and_then (rejected r) f d = (rejected r, d)

infixl 5 ◌>>=◌ ◌>>◌
-- Opening this opens the other actions too.
unfoldable pub ◌>>=◌ : {A B : Type 0} → Action A → (A → Action B) → Action B
unfolding pure raise gets or_raise raise_if modify
◌>>=◌ m f d = let (r, d') = m d in and_then r f d'

abbrev pub ◌>>◌ : {A B : Type 0} → Action A → Action B → Action B
m >> k = m >>= λ _. k

unfoldable pub status_of : Reason → ℕ
status_of invalid_identifier = 400
status_of no_such_work = 404
status_of other_root = 403
status_of other_caller = 403
status_of login_ended = 403
status_of unauthenticated = 401
status_of invalid_request_id = 400
status_of invalid_checkpoint = 400
status_of invalid_state = 400
status_of unknown_operation = 400
status_of _ = 409
