-- ===== src/Traces/PaxosOrder.antt =====
-- The order of the trace of projects/PaxosKV/scripts/mcp_paxos_udp.py.
use lean_fm.Common.{
  some-injective, ℕ, suc, ◌≡◌, refl, subst, String, Bool, true, false, Option, none, some, List, [],
  ◌∷◌, if◌then◌else◌, ◌==◌, length, All, arith, slice_last, starts_with, cons_if, ends_with, ◌+s◌,
}
use lean_fm.Traces.Log.{Event, Log, Link, empty_log, known, add_event}
use lean_fm.Traces.Causal.{
  IsLog, IsOrdered, IsAmong, empty_log-IsLog, length-add_event, IsOrdered-ids, Named, known-Named,
  next-IsLog,
}
use lean_fm.Traces.Paxos
use lean_fm.Traces.Paxos.{State, Step, ids_with, ids_chosen, ballot_of, rejected_link, chosen_link}

ids_with-IsAmong :
    (n : ℕ) (prefix : String) (events : List Event)
    → All (λ e. IsAmong n e.id) events
    → All (IsAmong n) (ids_with prefix events)
unfolding ids_with
ids_with-IsAmong n prefix [] h = tt
ids_with-IsAmong n prefix (e ∷ events) (here, there) =
    go (starts_with e.message prefix) (ids_with-IsAmong n prefix events there)
  where
    go :
        (b : Bool)
        → All (IsAmong n) (ids_with prefix events)
        → All (IsAmong n) (if b then e.id ∷ ids_with prefix events else ids_with prefix events)
    go true later = (here, later)
    go false later = later

ids_chosen-IsAmong :
    (n : ℕ) (c : State) (v : String) (events : List Event) (ids : List ℕ)
    → All (λ e. IsAmong n e.id) events
    → ids_chosen c v events ≡ some ids
    → All (IsAmong n) ids
unfolding ids_chosen
ids_chosen-IsAmong n c v [] ids h got = subst (All (IsAmong n)) (some-injective got) tt
ids_chosen-IsAmong n c v (e ∷ events) ids (here, there) got =
    go (starts_with e.message "Accepted") (ballot_of c e.message) (ids_chosen c v events)
      (λ old. ids_chosen-IsAmong n c v events old there) got
  where
    add :
        (b : Bool) (later : List ℕ) → All (IsAmong n) later → All (IsAmong n) (cons_if b e.id later)
    add true later l = (here, l)
    add false later l = l

    go :
        (b : Bool) (ballot : Option String) (later : Option (List ℕ))
        → ((old : List ℕ) → later ≡ some old → All (IsAmong n) old)
        → Paxos.add_chosen b ballot v e.id later ≡ some ids
        → All (IsAmong n) ids
    go false ballot later eq got = eq ids got
    go true none later eq got = absurd cc
    go true (some ballot) none eq got = absurd cc
    go true (some ballot) (some old) eq got =
        subst (All (IsAmong n)) (some-injective got) (add (ends_with ballot v) old (eq old refl))

rejected_link-Named :
    (d : List (String × String)) (log : Log) → IsLog log → Named log (rejected_link d log).causes
unfolding rejected_link
rejected_link-Named [] log h = tt
rejected_link-Named ((msg, a) ∷ more) log h = known-Named (Paxos.rejected_key msg) log h

log_ids : (log : Log) → IsLog log → All (λ e. IsAmong (length log.events) e.id) log.events
log_ids log h = IsOrdered-ids (length log.events) [] log.events h.ordered (omega arith)

-- Of one branch of `link`, that it names only events of the log.
abbrev Names : Log → Option Link → Type 0
Names log o = (l : Link) → o ≡ some l → Named log l.causes

Names-some : (log : Log) (l : Link) → Named log l.causes → Names log (some l)
Names-some log l h found got = subst (λ x. Named log x.causes) (some-injective got) h

Names-if :
    (log : Log) (b : Bool) (x y : Option Link)
    → Names log x
    → Names log y
    → Names log (if b then x else y)
Names-if log true x y hx hy = hx
Names-if log false x y hx hy = hy

accepted_link-Names :
    (label : String) (ballot : Option String) (log : Log)
    → IsLog log
    → Names log (Paxos.accepted_link label ballot log)
accepted_link-Names label none log h l got = absurd cc
accepted_link-Names label (some ballot) log h l got =
    Names-some log _ (known-Named ("Accept" +s ballot) log h) l got

chosen_link-Names :
    (c : State) (v : String) (log : Log)
    → IsLog log
    → Names log (chosen_link (ids_chosen c v log.events))
chosen_link-Names c v log h = go (ids_chosen c v log.events) refl
  where
    go : (o : Option (List ℕ)) → ids_chosen c v log.events ≡ o → Names log (chosen_link o)
    go none e l got = absurd cc
    go (some ids) e l got =
        Names-some log _ (ids_chosen-IsAmong _ c v log.events ids (log_ids log h) e) l got

link-Names :
    (p c : State) (label : String) (log : Log) → IsLog log → Names log (Paxos.link p c label log)
unfolding Paxos.link
link-Names p c label log h = Names-if log (label == "Accept1A") _ _ (none_Named "kv0" "replicas") (
    Names-if log (label == "Prepare2") _ _ (none_Named "kv2" "replicas") (
      Names-if log (starts_with label "Accept2") _ _ promised (
        Names-if log (starts_with label "Promise") _ _ prepared (
          Names-if log (starts_with label "Accepted") _ _
            (accepted_link-Names label (ballot_of c label) log h)
            (Names-if log (label == "Rejected") _ _
              (Names-some log (rejected_link d log) (rejected_link-Named d log h))
              (Names-if log (starts_with label "Chosen") _ _
                (chosen_link-Names c (slice_last 1 label) log h) (none_Named "learner" "web")))))))
  where
    d : List (String × String)
    d = Paxos.new_deliveries p c

    none_Named :
        (src dst : String) → Names log (some (record { src = src; dst = dst; causes = [] }))
    none_Named src dst = Names-some log (record { src = src; dst = dst; causes = [] }) tt

    promised :
        Names log
          (some (record { src = "kv2"; dst = "replicas"; causes = ids_with "Promise" log.events }))
    promised =
        Names-some log
          (record { src = "kv2"; dst = "replicas"; causes = ids_with "Promise" log.events })
          (ids_with-IsAmong (length log.events) "Promise" log.events (log_ids log h))

    prepared : Names log (
        some (record {
          src = "kv" +s slice_last 1 label;
          dst = "kv2";
          causes = known "Prepare2" log.sent;
        }))
    prepared =
        Names-some log
          (record {
            src = "kv" +s slice_last 1 label;
            dst = "kv2";
            causes = known "Prepare2" log.sent;
          })
          (known-Named "Prepare2" log h)

paxos_loop :
    (k : ℕ) (p : State) (log : Log) (steps : List Step) (final : Log)
    → k ≡ suc (length log.events)
    → IsLog log
    → Paxos.follow k p log steps ≡ some final
    → IsLog final
unfolding Paxos.follow
paxos_loop k p log [] final size h got = subst IsLog (some-injective got) h
paxos_loop k p log (step ∷ steps) final size h got =
    go (Paxos.link p step.state step.message log) refl
      (λ l. paxos_loop (suc k) step.state (add_event k step.message l log) steps final) got
  where
    go :
        (o : Option Link)
        → Paxos.link p step.state step.message log ≡ o
        → ((l : Link)
            → suc k ≡ suc (length (add_event k step.message l log).events)
            → IsLog (add_event k step.message l log)
            → Paxos.follow (suc k) step.state (add_event k step.message l log) steps ≡ some final
            → IsLog final)
        → elim o [
          | none ↦ none
          | some l ↦ Paxos.follow (suc k) step.state (add_event k step.message l log) steps
        ]
          ≡ some final
        → IsLog final
    go none e later got = absurd cc
    go (some l) e later got =
        let more = length-add_event k step.message l log in
        later l (omega (arith, size, more))
          (next-IsLog k step.message l log size h (link-Names p step.state step.message log h l e))
          got

-- A trace that is made of a path numbers its events from 1, gives each the last earlier event of
-- its sender as its predecessor, and names only earlier events as causes.
pub paxos-IsOrdered :
    (p : State) (steps : List Step) (events : List Event)
    → Paxos.trace p steps ≡ some events
    → IsOrdered [] events
unfolding Paxos.trace
paxos-IsOrdered p steps events got = go (Paxos.follow 1 p empty_log steps) refl got
  where
    go :
        (o : Option Log)
        → Paxos.follow 1 p empty_log steps ≡ o
        → elim o [ none ↦ none | some log ↦ some log.events ] ≡ some events
        → IsOrdered [] events
    go none e got = absurd cc
    go (some log) e got =
        subst (λ l. IsOrdered [] l) (some-injective got)
          (paxos_loop 1 p empty_log steps log refl empty_log-IsLog e).ordered
