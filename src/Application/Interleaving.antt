-- ===== src/Application/Interleaving.antt =====
-- The supervisors of a project, over all orders of commands and of their own steps.
use lean_fm.Common.{
  some-injective, String, Bool, true, false, not, Option, none, some, List, [], ◌∷◌, ◌++◌, ◌≡◌,
  refl, sym, ap, ◌∙◌, ◌⊎◌, inl, inr, ◌==◌, if◌then◌else◌, any, filter, length, length-append, arith,
  eq_refl, ◌≤◌, cons_if, ◌||◌, subst,
}
use lean_fm.Application.Types.{Record, World, running, stopped, ok}
use lean_fm.Application.Lifecycle.{look, stop, free, Stopped, stop_record}
use lean_fm.Application.Supervisor.{Cause, raised, process_ended, ready}
use lean_fm.Application.System.{
  System, is_alive, without, Step, launches, denies, runs, finishes, crashes, stops, Reaches, idle,
  next,
}
use lean_fm.Application.Kills.{look-killed, stop-killed, owner-stop, alive_nobody, look_dead}

only_middle : (r : Record) {A B : List Record} → A ≡ [] → B ≡ [] → A ++ r ∷ B ≡ r ∷ []
only_middle r {A} {B} a b = ap (λ l. l ++ r ∷ B) a ∙ ap (λ l. r ∷ l) b

empty_append : {A B : List Record} → A ≡ [] → B ≡ [] → A ++ B ≡ []
empty_append {A} {B} a b = ap (λ l. l ++ B) a ∙ b

-- At most one supervisor lives, and the record is of its instance.
unfoldable pub IsSingle : System → Type 0
IsSingle s =
    (s.supervisors ≡ [])
    ⊎ ((d r : Record) × (s.supervisors ≡ d ∷ [])
        × (s.file ≡ some r)
        × (r.instance_id ≡ d.instance_id))

abbrev IsShort : List Record → Type 0
IsShort l = length l ≤ 1

-- A list with a middle that has one element at most has only the middle.
middle_lem :
    (before after : List Record) (d : Record)
    → IsShort (before ++ d ∷ after)
    → (before ≡ []) × (after ≡ [])
middle_lem [] [] d h = (refl, refl)
middle_lem [] (a ∷ after) d h = absurd (omega (arith, h))
middle_lem (b ∷ before) after d h = absurd (omega (arith, h, length-append before (d ∷ after)))

single-IsShort : (s : System) → IsSingle s → IsShort s.supervisors
unfolding IsSingle
single-IsShort s (inl e) = omega (arith, ap length e)
single-IsShort s (inr (d, r, e, f, i)) = omega (arith, ap length e)

ready_instance :
    (w : World) (d r : Record) (cause : Cause)
    → ready w d ≡ (cause, some r)
    → r.instance_id ≡ d.instance_id
unfolding ready
ready_instance w d r cause h = go (d.revision == w.revision) h
  where
    go :
        (b : Bool)
        → ◌≡◌ {A = Cause × Option Record}
            (if not b
              then (raised "Source changed during launch; restart the current revision", none)
              else (process_ended, some (record d { state = running; reason = "" })))
            (cause, some r)
        → r.instance_id ≡ d.instance_id
    go false e = let o = ap (λ x. x.1) e in absurd cc
    go true e = sym (ap Record.instance_id (some-injective (ap (λ x. x.1) e)))

-- What an operation kills of a single supervisor leaves none.
without_lem :
    (s : System) (killed : Option String)
    → IsSingle s
    → ((r : Record) → s.file ≡ some r → is_alive s r ≡ true → killed ≡ some r.instance_id)
    → without killed s.supervisors ≡ []
unfolding IsSingle is_alive
without_lem s none (inl e) f = e
without_lem s (some k) (inl e) f = ap (filter (λ d. not (d.instance_id == k))) e
without_lem s killed (inr (d, r, e, file, i)) f =
    let same : (d.instance_id == r.instance_id) ≡ true =
      ap (λ j. d.instance_id == j) i ∙ eq_refl d.instance_id in
    let own : (r.instance_id == d.instance_id) ≡ true =
      ap (λ j. j == d.instance_id) i ∙ eq_refl d.instance_id in
    let live : is_alive s r ≡ true =
      ap (any (λ x. r.instance_id == x.instance_id)) e ∙ ap (λ b. b || false) own in
    ap (λ k. without k s.supervisors) (f r file live)
    ∙ ap (filter (λ x. not (x.instance_id == r.instance_id))) e
    ∙ ap (λ b. cons_if (not b) d []) same

look-without :
    (s : System) (w : World) (owner project : String) (left : Option Record)
    (killed : Option String)
    → IsSingle s
    → w.alive ≡ is_alive s
    → look w owner project s.file ≡ free left killed
    → without killed s.supervisors ≡ []
look-without s w owner project left killed h live e = without_lem s killed h (λ r file a.
    look-killed w owner project r left killed (ap (λ f. f r) live ∙ a)
      (ap (look w owner project) (sym file) ∙ e))

stop-without :
    (s : System) (w : World) (owner instance : String) (left : Option Record)
    (killed : Option String)
    → IsSingle s
    → w.alive ≡ is_alive s
    → stop w owner instance s.file ≡ (ok tt, left, killed)
    → without killed s.supervisors ≡ []
stop-without s w owner instance left killed h live e = without_lem s killed h (λ r file a.
    stop-killed w owner instance r left killed (ap (λ f. f r) live ∙ a)
      (ap (stop w owner instance) (sym file) ∙ e))

step-IsSingle : (s t : System) → IsSingle s → Step s t → IsSingle t
unfolding IsSingle
step-IsSingle _ _ h (launches s w owner project left killed r v l a) =
    inr (r, r, ap (λ rest. r ∷ rest) (look-without s w owner project left killed h v l), refl, refl)
step-IsSingle _ _ h (denies s w owner project left killed why v l a) =
    inl (look-without s w owner project left killed h v l)
step-IsSingle _ _ h (runs file before after d r w cause e) =
    let short = middle_lem before after d (single-IsShort _ h) in
    inr (r, r, only_middle r short.0 short.1, refl, refl)
step-IsSingle _ _ h (finishes file before after d cause) =
    let short = middle_lem before after d (single-IsShort _ h) in inl (empty_append short.0 short.1)
step-IsSingle _ _ h (crashes file before after d) =
    let short = middle_lem before after d (single-IsShort _ h) in inl (empty_append short.0 short.1)
step-IsSingle _ _ h (stops s w owner instance left killed v e) =
    inl (stop-without s w owner instance left killed h v e)

-- In every order of commands, of the writes of supervisors and of their ends, at most one
-- supervisor lives, and the record is of its instance.
pub reaches-IsSingle : (s : System) → Reaches s → IsSingle s
unfolding IsSingle
reaches-IsSingle _ (idle file) = inl refl
reaches-IsSingle _ (next s t h step) = step-IsSingle s t (reaches-IsSingle s h) step

-- The system after its owner's `stop`, as `stop` returns it.
abbrev pub stopped_system : World → System → Record → System
stopped_system w s r =
    let (answer, left, killed) = stop w r.owner "" s.file in
    record { file = left; supervisors = without killed s.supervisors }

-- A record that is stopped, and that has no capability for a preview.
abbrev pub IsStopped : Option Record → Type 0
IsStopped file = (q : Record) × (file ≡ some q) × (q.state ≡ stopped) × (q.capability ≡ none)

-- From whatever the steps lead to, the owner of the record can stop: the record says so and has no
-- capability, no supervisor is left, and whoever then starts, as the processes are, is neither
-- refused as another's nor shown a running application, but goes on to the admission with nothing
-- to kill.
pub stop_frees :
    (s : System) (r : Record) (w later : World) (owner project : String)
    → Reaches s
    → s.file ≡ some r
    → w.alive ≡ is_alive s
    → later.alive ≡ is_alive (stopped_system w s r)
    → Step s (stopped_system w s r)
      × ((stopped_system w s r).supervisors ≡ [])
      × IsStopped (stopped_system w s r).file
      × (look later owner project (stopped_system w s r).file
          ≡ free (stopped_system w s r).file none)
stop_frees s r w later owner project h f live after =
    let same = ap (stop w r.owner "") f ∙ owner-stop w r in
    let file : (stopped_system w s r).file ≡ some (stop_record r) =
      ap (λ (x : Stopped). x.1) same in
    let whole : stop w r.owner "" s.file
        ≡ (ok tt, (stopped_system w s r).file, (stop w r.owner "" s.file).2) =
      ap (λ (x : Stopped). (x.0, (stopped_system w s r).file, (stop w r.owner "" s.file).2)) same in
    let none_left : (stopped_system w s r).supervisors ≡ [] =
      stop-without s w r.owner "" _ _ (reaches-IsSingle s h) live whole in
    (
      stops s w r.owner "" _ _ live whole,
      none_left,
      (stop_record r, file, refl, refl),
      subst (λ o. look later owner project o ≡ free o none) (sym file)
          (look_dead later owner project (stop_record r) (dead none_left)),
    )
  where
    dead : (stopped_system w s r).supervisors ≡ [] → later.alive (stop_record r) ≡ false
    dead empty =
        ap (λ a. a (stop_record r)) after
        ∙ alive_nobody (stopped_system w s r) (stop_record r) empty
