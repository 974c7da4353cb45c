-- ===== src/Application/Readiness.antt =====
-- When a supervisor calls its application running.
use lean_fm.Common.{
  String, Bool, true, false, not, ◌||◌, Option, none, some, List, [], ◌∷◌, ◌≡◌, refl, sym, ap, ◌∙◌,
  if◌then◌else◌, arith, ◌==◌, eq_iff, some-injective, Bool-cases, ◌+s◌, slice_last, inl, inr, ◌⊎◌,
}
use mathlib.Core.List.{Memᴰ}
use lean_fm.Application.Types.{Record, World, Answer, ok, refused, running, superseded}
use lean_fm.Application.Supervisor.{Cause, interrupted, raised, process_ended, own, begin, ready}
use lean_fm.Application.Supervise.{
  Observation, pass, Waited, gave_up, became_ready, wait_ready, watched, waited, supervise_from,
  supervise, removed, Writes,
}

-- A pass that found the supervisor's own record, the worker and LeanFM's process alive, the budget
-- kept, and an application that answers that it is ready.
pub record IsGood (instance : String) (o : Observation) : Type 0 where
  pub signal : o.is_signalled ≡ false
  pub root : o.has_root ≡ true
  pub file : own instance o.file ≡ true
  pub budget : o.budget ≡ none
  pub worker : o.exited ≡ none
  pub owner : o.has_owner ≡ true
  pub is_ready : o.is_ready ≡ true

pass-IsGood :
    (instance : String) (o : Observation)
    → pass instance o ≡ none
    → o.is_ready ≡ true
    → IsGood instance o
unfolding pass
pass-IsGood instance o h r = go o.budget o.exited refl refl h
  where
    go :
        (budget exited : Option String)
        → o.budget ≡ budget
        → o.exited ≡ exited
        → (if o.is_signalled
            then some interrupted
            else if not o.has_root || not (own instance o.file)
            then some removed
            else elim budget [
              | some error ↦ some (raised error)
              | none ↦ elim exited [
                | some log ↦ some (raised ("Application worker exited: " +s slice_last 2000 log))
                | none ↦
                    if not o.has_owner then some (raised "LeanFM owner process ended") else none
              ]
            ])
          ≡ none
        → IsGood instance o
    go (some b) x eb ex h = absurd (ground arith)
    go none (some x) eb ex h = absurd (ground arith)
    go none none eb ex h = record {
      signal = ground (arith, h);
      root = ground (arith, h);
      file = ground (arith, h);
      budget = eb;
      worker = ex;
      owner = ground (arith, h);
      is_ready = r;
    }

wait_ready_requires :
    (instance : String) (passes rest : List Observation)
    → wait_ready instance passes ≡ became_ready rest
    → (o : Observation) × Memᴰ o passes × IsGood instance o
unfolding wait_ready
wait_ready_requires instance [] rest h = absurd cc
wait_ready_requires instance (o ∷ passes) rest h =
    go (pass instance o) (Bool-cases o.is_ready) refl (wait_ready_requires instance passes rest) h
  where
    go :
        (found : Option Cause)
        → (o.is_ready ≡ true) ⊎ (o.is_ready ≡ false)
        → pass instance o ≡ found
        → (wait_ready instance passes ≡ became_ready rest
            → (g : Observation) × Memᴰ g passes × IsGood instance g)
        → elim found [
          | some cause ↦ gave_up cause
          | none ↦ if o.is_ready then became_ready passes else wait_ready instance passes
        ]
          ≡ became_ready rest
        → (g : Observation) × Memᴰ g (o ∷ passes) × IsGood instance g
    go (some cause) b e later h = absurd cc
    go none (inl b) e later h = (o, Memᴰ.head refl, pass-IsGood instance o e b)
    go none (inr b) e later h =
        let (g, m, good) = later (ground (arith, h, b)) in (g, Memᴰ.tail m, good)

-- What `supervise` went through before it wrote the record of a running application.
waited_requires :
    (w : World) (instance : String) (d r : Record) (left final : Option Record) (found : Waited)
    → waited w instance d left found ≡ (some r, final)
    → ((rest : List Observation) × (found ≡ became_ready rest))
      × (r.state ≡ running)
      × (r.instance_id ≡ d.instance_id)
      × (r.revision ≡ w.revision)
unfolding ready
waited_requires w instance d r left final (gave_up cause) h =
    let none_some = ap (λ x. x.0) h in absurd cc
waited_requires w instance d r left final (became_ready rest) h =
    go (d.revision == w.revision) refl h
  where
    go :
        (b : Bool)
        → (d.revision == w.revision) ≡ b
        → ◌≡◌ {A = Option Record × Option Record}
            (watched instance rest d left (
              if not b
              then (raised "Source changed during launch; restart the current revision", none)
              else (process_ended, some (record d { state = running; reason = "" }))))
            (some r, final)
        → ((more : List Observation) × (became_ready rest ≡ became_ready more))
          × (r.state ≡ running)
          × (r.instance_id ≡ d.instance_id)
          × (r.revision ≡ w.revision)
    go false e h = let none_some = ap (λ x. x.0) h in absurd cc
    go true e h =
        let written : record d { state = running; reason = "" } ≡ r =
          some-injective (ap (λ x. x.0) h) in
        (
          (rest, refl),
          sym (ap Record.state written),
          sym (ap Record.instance_id written),
          sym (ap Record.revision written) ∙ (eq_iff d.revision w.revision).0 e,
        )

abbrev writes_of : Answer Writes → Writes
writes_of (ok writes) = writes
writes_of (refused why) = (none, none)

-- A supervisor that writes the record of a running application found the record to be of its own
-- instance at its start, and then in one pass of its loop an application that answered as ready,
-- with its own record, within its budget, both processes alive; and the sources are unchanged.
pub runs_requires :
    (w : World) (instance : String) (file left final : Option Record) (passes : List Observation)
    (r : Record)
    → supervise w instance file passes left ≡ ok (some r, final)
    → (own instance file ≡ true)
      × (r.state ≡ running)
      × (r.instance_id ≡ instance)
      × (r.revision ≡ w.revision)
      × (o : Observation) × Memᴰ o passes
      × IsGood instance o
unfolding supervise begin ready
runs_requires w instance none left final passes r h = absurd cc
runs_requires w instance (some d) left final passes r h = go (d.instance_id == instance) refl h
  where
    go :
        (b : Bool)
        → (d.instance_id == instance) ≡ b
        → supervise_from w instance passes left (if not b then refused superseded else ok d)
          ≡ ok (some r, final)
        → (own instance (some d) ≡ true)
          × (r.state ≡ running)
          × (r.instance_id ≡ instance)
          × (r.revision ≡ w.revision)
          × (o : Observation) × Memᴰ o passes
          × IsGood instance o
    go false e h = absurd cc
    go true e h =
        let ((rest, ends), s, i, v) =
          waited_requires w instance d r left final (wait_ready instance passes) (ap writes_of h) in
        let (o, m, good) = wait_ready_requires instance passes rest ends in
        (e, s, i ∙ (eq_iff d.instance_id instance).0 e, v, o, m, good)
