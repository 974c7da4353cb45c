-- ===== src/Application/System.antt =====
-- The commands and the supervisors of one project as steps of a system.
use lean_fm.Common.{
  String, Bool, not, Option, none, some, List, [], ◌∷◌, ◌++◌, ◌≡◌, ◌==◌, any, filter,
}
use lean_fm.Application.Types.{Record, World, Refusal, ok, refused}
use lean_fm.Application.Lifecycle.{look, admit, stop, free}
use lean_fm.Application.Supervisor.{Cause, ready, finish}

-- The record, and the supervisors that live, each by its own copy of the record.
pub record System : Type 0 where
  pub file : Option Record
  pub supervisors : List Record

-- `alive`: a process that supervises the instance of the record
unfoldable pub is_alive : System → Record → Bool
is_alive s r = any (λ d. r.instance_id == d.instance_id) s.supervisors

-- The supervisors after a signal to that of an instance, where one was sent.
abbrev pub without : Option String → List Record → List Record
without none supervisors = supervisors
without (some killed) supervisors = filter (λ d. not (d.instance_id == killed)) supervisors

-- `start`, from its look at the record to the launch of the supervisor, or to the refusal after
-- that look; the write of a supervisor whose application is ready; its last write; the end of one
-- that is killed before that; `stop`, also that of a `start` that waited in vain. Which supervisor
-- is killed is what `look` and `stop` return.
pub data Step : System → System → Type 0 where
  launches :
      (s : System) (w : World) (owner project : String) (left : Option Record)
      (killed : Option String) (r : Record)
      → w.alive ≡ is_alive s
      → look w owner project s.file ≡ free left killed
      → admit w owner project w.contract ≡ ok r
      → Step s (record { file = some r; supervisors = r ∷ without killed s.supervisors })
  denies :
      (s : System) (w : World) (owner project : String) (left : Option Record)
      (killed : Option String) (why : Refusal)
      → w.alive ≡ is_alive s
      → look w owner project s.file ≡ free left killed
      → admit w owner project w.contract ≡ refused why
      → Step s (record { file = left; supervisors = without killed s.supervisors })
  runs :
      (file : Option Record) (before after : List Record) (d r : Record) (w : World) (cause : Cause)
      → ready w d ≡ (cause, some r)
      → Step
          (record { file = file; supervisors = before ++ d ∷ after })
          (record { file = some r; supervisors = before ++ r ∷ after })
  finishes :
      (file : Option Record) (before after : List Record) (d : Record) (cause : Cause)
      → Step
          (record { file = file; supervisors = before ++ d ∷ after })
          (record { file = finish d.instance_id cause d file; supervisors = before ++ after })
  crashes :
      (file : Option Record) (before after : List Record) (d : Record)
      → Step
          (record { file = file; supervisors = before ++ d ∷ after })
          (record { file = file; supervisors = before ++ after })
  stops :
      (s : System) (w : World) (owner instance : String) (left : Option Record)
      (killed : Option String)
      → w.alive ≡ is_alive s
      → stop w owner instance s.file ≡ (ok tt, left, killed)
      → Step s (record { file = left; supervisors = without killed s.supervisors })

-- What steps lead to from a project whose application no process supervises.
pub data Reaches : System → Type 0 where
  idle : (file : Option Record) → Reaches (record { file = file; supervisors = [] })
  next : (s t : System) → Reaches s → Step s t → Reaches t
