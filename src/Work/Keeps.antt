-- ===== src/Work/Keeps.antt =====
-- Invariants of a method: one rule for each way in which a method is built.
use lean_fm.Common.{
  ℕ, ◌+◌, ◌≤◌, String, ◌≡◌, refl, Bool, true, false, Option, none, some, if◌then◌else◌, arith, ◌==◌,
}
use lean_fm.Common.Table.{lookup}
use lean_fm.Work.Types.{Disk, Reason, Job, World, File, job_file, index_file}
use lean_fm.Work.Action.{
  Result, ok, rejected, Action, pure, raise, gets, or_raise, raise_if, modify, and_then, ◌>>=◌,
  ◌>>◌,
}
use lean_fm.Work.Storage.{read, max_state_bytes, is_id}

-- `m` keeps `P`, whether it returns or raises.
pub record Keeps {A : Type 0} (P : Disk → Type 0) (m : Action A) : Type 0 where
  pub at : (d : Disk) → P d → P (m d).1

module _ {A : Type 0} {P : Disk → Type 0} where
  pub Keeps-pure : (a : A) → Keeps P (pure a)
  unfolding ◌>>=◌
  Keeps-pure a = record { at = λ d h. h }

  pub Keeps-raise : (why : Reason) → Keeps P (raise {A = A} why)
  unfolding ◌>>=◌
  Keeps-raise why = record { at = λ disk held. held }

  pub Keeps-or_raise : (o : Option A) (r : Reason) → Keeps P (or_raise o r)
  unfolding ◌>>=◌
  Keeps-or_raise none r = record { at = λ d h. h }
  Keeps-or_raise (some a) r = record { at = λ d h. h }

  pub Keeps-if :
      (test : Bool) (first second : Action A)
      → (test ≡ true → Keeps P first)
      → (test ≡ false → Keeps P second)
      → Keeps P (if test then first else second)
  Keeps-if true first second holds other = holds refl
  Keeps-if false first second holds other = other refl

module _ {A B : Type 0} where
  Keeps-and_then :
      (P : Disk → Type 0) (r : Result A) (f : A → Action B) (d : Disk)
      → ((a : A) → r ≡ ok a → P (f a d).1)
      → P d
      → P (and_then r f d).1
  Keeps-and_then P (ok a) f d k h = k a refl
  Keeps-and_then P (rejected r) f d k h = h

module _ {A B : Type 0} {P : Disk → Type 0} where
  -- The rest may use what the first part returned.
  pub Keeps-bind_of :
      (m : Action A) (f : A → Action B)
      → Keeps P m
      → ((a : A) (d : Disk) → P d → (m d).0 ≡ ok a → P (f a (m d).1).1)
      → Keeps P (m >>= f)
  unfolding ◌>>=◌
  Keeps-bind_of m f km kf = record {
    at = λ d h. Keeps-and_then P (m d).0 f (m d).1 (λ a e. kf a d h e) (km.at d h);
  }

  pub Keeps-bind :
      (call : Action A) (rest : A → Action B)
      → Keeps P call
      → ((result : A) → Keeps P (rest result))
      → Keeps P (call >>= rest)
  Keeps-bind call rest k ks =
      Keeps-bind_of call rest k (λ result d h e. (ks result).at (call d).1 (k.at d h))

  pub Keeps-gets :
      (g : Disk → A) (f : A → Action B) → ((a : A) → Keeps P (f a)) → Keeps P (gets g >>= f)
  unfolding ◌>>=◌
  Keeps-gets g f k = record { at = λ d h. (k (g d)).at d h }

module _ {B : Type 0} {P : Disk → Type 0} where
  -- After a guard its test is known to have failed.
  pub Keeps-guard :
      (b : Bool) (r : Reason) (m : Action B) → (b ≡ false → Keeps P m) → Keeps P (raise_if b r >> m)
  unfolding ◌>>=◌
  Keeps-guard true r m k = record { at = λ d h. h }
  Keeps-guard false r m k = record { at = (k refl).at }

  pub Keeps-checked :
      {A : Type 0} (b : Bool) (r : Reason) (a : A) (f : A → Action B)
      → Keeps P (f a)
      → Keeps P ((raise_if b r >> pure a) >>= f)
  unfolding ◌>>=◌
  Keeps-checked true r a f k = record { at = λ d h. h }
  Keeps-checked false r a f k = record { at = k.at }

  pub Keeps-modify :
      (g : Disk → Disk) (m : Action B)
      → ((d : Disk) → P d → P (g d))
      → Keeps P m
      → Keeps P (modify g >> m)
  unfolding ◌>>=◌
  Keeps-modify g m kg km = record { at = λ d h. km.at (g d) (kg d h) }

-- What a successful `read` says of the disk.
pub record Reads (w : World) (name : String) (d : Disk) (job : Job) : Type 0 where
  pub time : ℕ
  pub found : lookup name d.files ≡ some (job_file job time)
  pub fits : w.job_size job + 1 ≤ max_state_bytes
  pub rooted : (job.root_tag == w.root_tag) ≡ true
  pub named : is_id name ≡ true

module _ (w : World) (name : String) (d : Disk) where
  read_file :
      (f : Option File) {job : Job}
      → lookup name d.files ≡ f
      → (read w name d).0 ≡ ok job
      → Reads w name d job
  unfolding read ◌>>=◌
  read_file none e h = ground (arith)
  read_file (some (index_file i)) e h = ground (arith)
  read_file (some (job_file j t)) e h = record {
    time = t;
    found = ground arith;
    fits = ground arith;
    rooted = ground arith;
    named = ground arith;
  }

  pub read-Reads : {job : Job} → (read w name d).0 ≡ ok job → Reads w name d job
  read-Reads h = read_file (lookup name d.files) refl h

  pub disk-read : (read w name d).1 ≡ d
  unfolding read ◌>>=◌
  disk-read = ground arith
