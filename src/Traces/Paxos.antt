-- ===== src/Traces/Paxos.antt =====
-- `trace` of projects/PaxosKV/scripts/mcp_paxos_udp.py.
use lean_fm.Common.{
  ℕ, zero, suc, String, Bool, true, false, not, ◌&&◌, Option, none, some, List, [], ◌∷◌,
  if◌then◌else◌, ◌==◌, ◌+s◌, any, filter, starts_with, ends_with, slice_last, slice_from, digit,
  cons_if,
}
use lean_fm.Traces.Log.{Event, Log, Link, empty_log, known, add_event}

-- What `parse` makes of a state: the ballot that each acceptor has, and the pairs of a message
-- and an acceptor's digit that were delivered.
pub record State : Type 0 where
  pub accepted : List String
  pub delivered : List (String × String)

-- A step of the path: its message and the state that it leads to.
pub record Step : Type 0 where
  pub message : String
  pub state : State

-- `xs[i]`
unfoldable pub item {ℓ} : {A : Type ℓ} → ℕ → List A → Option A
item i [] = none
item zero (x ∷ xs) = some x
item (suc i) (x ∷ xs) = item i xs

-- `c["accepted"][int(label[-1])]`
unfoldable pub ballot_of : State → String → Option String
unfolding item
ballot_of c label = elim (digit (slice_last 1 label)) [ none ↦ none | some a ↦ item a c.accepted ]

abbrev pub is_pair : String × String → String × String → Bool
is_pair (msg, a) (msg2, a2) = msg == msg2 && a == a2

-- `[d for d in c["delivered"] if d not in p["delivered"]]`
unfoldable pub new_deliveries : State → State → List (String × String)
new_deliveries p c = filter (λ d. not (any (is_pair d) p.delivered)) c.delivered

-- `[e["id"] for e in events if e["message"].startswith(prefix)]`
unfoldable pub ids_with : String → List Event → List ℕ
ids_with prefix [] = []
ids_with prefix (e ∷ events) =
    let later = ids_with prefix events in
    if starts_with e.message prefix then e.id ∷ later else later

abbrev pub add_chosen : Bool → Option String → String → ℕ → Option (List ℕ) → Option (List ℕ)
add_chosen false ballot v id later = later
add_chosen true none v id later = none
add_chosen true (some ballot) v id none = none
add_chosen true (some ballot) v id (some ids) = some (cons_if (ends_with ballot v) id ids)

-- The causes of Chosen: the accepted messages whose acceptor has the value `v`.
unfoldable pub ids_chosen : State → String → List Event → Option (List ℕ)
unfolding ballot_of
ids_chosen c v [] = some []
ids_chosen c v (e ∷ events) =
    let later = ids_chosen c v events in
    add_chosen (starts_with e.message "Accepted") (ballot_of c e.message) v e.id later

abbrev pub rejected_key : String → String
rejected_key msg = if msg == "P" then "Prepare2" else "Accept" +s slice_from 1 msg

abbrev pub rejected_dst : String → String
rejected_dst key = if key == "Accept1A" then "kv0" else "kv2"

unfoldable pub rejected_link : List (String × String) → Log → Link
unfolding known
rejected_link [] log = record { src = "learner"; dst = "web"; causes = [] }
rejected_link ((msg, a) ∷ more) log =
    let key = rejected_key msg in
    record { src = "kv" +s a; dst = rejected_dst key; causes = known key log.sent }

abbrev pub accepted_link : String → Option String → Log → Option Link
accepted_link label none log = none
accepted_link label (some ballot) log = some (record {
  src = "kv" +s slice_last 1 label;
  dst = "learner";
  causes = known ("Accept" +s ballot) log.sent;
})

abbrev pub chosen_link : Option (List ℕ) → Option Link
chosen_link none = none
chosen_link (some ids) = some (record { src = "learner"; dst = "web"; causes = ids })

-- The branches of the loop's body. A failing index or number is `none`.
unfoldable pub link : State → State → String → Log → Option Link
unfolding known ballot_of new_deliveries ids_with ids_chosen rejected_link
link p c label log =
    if label == "Accept1A"
    then some (record { src = "kv0"; dst = "replicas"; causes = [] })
    else if label == "Prepare2"
    then some (record { src = "kv2"; dst = "replicas"; causes = [] })
    else if starts_with label "Accept2"
    then some (record { src = "kv2"; dst = "replicas"; causes = ids_with "Promise" log.events })
    else if starts_with label "Promise"
    then some (record {
      src = "kv" +s slice_last 1 label;
      dst = "kv2";
      causes = known "Prepare2" log.sent;
    })
    else if starts_with label "Accepted"
    then accepted_link label (ballot_of c label) log
    else if label == "Rejected"
    then some (rejected_link (new_deliveries p c) log)
    else if starts_with label "Chosen"
    then chosen_link (ids_chosen c (slice_last 1 label) log.events)
    else some (record { src = "learner"; dst = "web"; causes = [] })

-- The loop, from the `k`-th step on.
unfoldable pub follow : ℕ → State → Log → List Step → Option Log
unfolding link add_event
follow k p log [] = some log
follow k p log (step ∷ steps) = elim (link p step.state step.message log) [
  | none ↦ none
  | some l ↦ follow (suc k) step.state (add_event k step.message l log) steps
]

-- The events of a path that begins in a state, or none where an index or a number fails.
unfoldable pub trace : State → List Step → Option (List Event)
unfolding follow
trace start_state steps = elim (follow 1 start_state empty_log steps) [
  | none ↦ none
  | some log ↦ some log.events
]
