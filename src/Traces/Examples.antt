-- ===== src/Traces/Examples.antt =====
-- Traces of short paths.
use lean_fm.Common.{String, List, [], ◌∷◌, some, ◌≡◌, refl}
use lean_fm.Traces.Log.{Event}
use lean_fm.Traces.Causal.{IsOrdered}
use lean_fm.Traces.Paxos
use lean_fm.Traces.Paxos.{State, Step}
use lean_fm.Traces.PaxosOrder.{paxos-IsOrdered}

abbrev commit_path : List String
commit_path = "BeginA1" ∷ "CommitA1" ∷ "ImportB1" ∷ "ReadB" ∷ []

abbrev no_state : State
no_state = record { accepted = "" ∷ "" ∷ "" ∷ []; delivered = [] }

abbrev chosen_state : State
chosen_state = record { accepted = "1A" ∷ "1A" ∷ "" ∷ []; delivered = ("P", "2") ∷ [] }

abbrev chosen_path : List Step
chosen_path =
    record { message = "Accept1A"; state = no_state }
    ∷ record { message = "Accepted0"; state = chosen_state }
    ∷ record { message = "ChosenA"; state = chosen_state }
    ∷ []

abbrev chosen_events : List Event
chosen_events =
    record {
      id = 1;
      src = "kv0";
      dst = "replicas";
      message = "Accept1A";
      prev_ids = [];
      cause_ids = [];
    }
    ∷ record {
      id = 2;
      src = "kv0";
      dst = "learner";
      message = "Accepted0";
      prev_ids = 1 ∷ [];
      cause_ids = 1 ∷ [];
    }
    ∷ record {
      id = 3;
      src = "learner";
      dst = "web";
      message = "ChosenA";
      prev_ids = [];
      cause_ids = 2 ∷ [];
    }
    ∷ []

chosen_run : Paxos.trace no_state chosen_path ≡ some chosen_events
unfolding Paxos.trace
chosen_run = refl

paxos-IsOrdered_example : IsOrdered [] chosen_events
paxos-IsOrdered_example = paxos-IsOrdered no_state chosen_path chosen_events chosen_run
