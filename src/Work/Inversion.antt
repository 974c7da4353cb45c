-- ===== src/Work/Inversion.antt =====
-- What a method did, read off from its successful result: one lemma for each way to build one.
use lean_fm.Common.{◌≡◌, refl, Bool, true, false, Option, none, some, ◌||◌, ◌==◌, arith, ◌+◌}
use lean_fm.Work.Types.{Disk, Reason, Job, Identity, World}
use lean_fm.Work.Action.{
  Result, ok, rejected, Action, pure, gets, or_raise, raise_if, modify, and_then, ◌>>=◌, ◌>>◌,
}
use lean_fm.Work.Storage.{authorize, is_caller, reserve, lease_time}

module _ {A B : Type 0} where
  and_then-ok :
      (r : Result A) (f : A → Action B) (d : Disk) {b : B} {d' : Disk}
      → and_then r f d ≡ (ok b, d')
      → (a : A) × (r ≡ ok a) × (f a d ≡ (ok b, d'))
  and_then-ok (ok a) f d e = (a, refl, e)
  and_then-ok (rejected r) f d e = cc

  pub bind-ok :
      (m : Action A) (f : A → Action B) (d : Disk) {b : B} {d' : Disk}
      → (m >>= f) d ≡ (ok b, d')
      → (a : A) × ((m d).0 ≡ ok a) × (f a (m d).1 ≡ (ok b, d'))
  unfolding ◌>>=◌
  bind-ok m f d e = and_then-ok (m d).0 f (m d).1 e

  pub gets-ok :
      (g : Disk → A) (f : A → Action B) (d : Disk) {b : B} {d' : Disk}
      → (gets g >>= f) d ≡ (ok b, d')
      → f (g d) d ≡ (ok b, d')
  unfolding ◌>>=◌
  gets-ok g f d e = e

  pub or_raise-ok :
      (o : Option A) (r : Reason) (f : A → Action B) (d : Disk) {b : B} {d' : Disk}
      → (or_raise o r >>= f) d ≡ (ok b, d')
      → (a : A) × (o ≡ some a) × (f a d ≡ (ok b, d'))
  unfolding ◌>>=◌
  or_raise-ok none r f d e = cc
  or_raise-ok (some a) r f d e = (a, refl, e)

module _ {B : Type 0} where
  pub guard-ok :
      (c : Bool) (r : Reason) (m : Action B) (d : Disk) {b : B} {d' : Disk}
      → (raise_if c r >> m) d ≡ (ok b, d')
      → (c ≡ false) × (m d ≡ (ok b, d'))
  unfolding ◌>>=◌
  guard-ok true r m d e = cc
  guard-ok false r m d e = (refl, e)

  pub modify-ok :
      (g : Disk → Disk) (m : Action B) (d : Disk) {b : B} {d' : Disk}
      → (modify g >> m) d ≡ (ok b, d')
      → m (g d) ≡ (ok b, d')
  unfolding ◌>>=◌
  modify-ok g m d e = e

  pub reserve-ok :
      (w : World) (job : Job) (m : Action B) (d : Disk) {b : B} {d' : Disk}
      → (reserve w job >> m) d ≡ (ok b, d')
      → m (record d { active = some (record { id = job.id; expires = w.now + lease_time }) })
        ≡ (ok b, d')
  unfolding reserve ◌>>=◌
  reserve-ok w job m d e = e

  -- Past `authorize` the caller is the job's, in its session or allowed a new one.
  pub authorize-ok :
      (job : Job) (i : Identity) (allow : Bool) (m : Action B) (d : Disk) {b : B} {d' : Disk}
      → (authorize job i allow >> m) d ≡ (ok b, d')
      → (is_caller job i ≡ true) × ((job.owner == i.owner || allow) ≡ true) × (m d ≡ (ok b, d'))
  unfolding authorize ◌>>=◌
  authorize-ok job i allow m d e = ground arith

pub pure-ok :
    {A : Type 0} (a : A) (d : Disk) {b : A} {d' : Disk} → pure a d ≡ (ok b, d') → (a ≡ b) × (d ≡ d')
unfolding pure
pure-ok a d e = ground arith
