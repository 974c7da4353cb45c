-- ===== src/Deployments/Ends.antt =====
-- What a runtime leaves.
use lean_fm.Common.{
  Bool, true, false, ◌||◌, Option, none, some, List, [], ◌∷◌, ◌≡◌, refl, if◌then◌else◌, ℕ, String,
  not, is_some, ◌⊎◌, inl, inr,
}
use lean_fm.Deployments.Types.{
  Reason, link_in_the_way, already_running, bad_port, system_error, absent, Child, term, kill,
  send_term, wait_or_kill,
}
use lean_fm.Deployments.Paxos
use lean_fm.Deployments.GoServer

-- How a child ends: one that had ended is left alone, one that heeds SIGTERM gets only that, and
-- any other gets SIGKILL after it.
unfoldable pub Ended : Child → Child → Type 0
Ended before after =
    (after.is_running ≡ false)
    × (after.command ≡ before.command)
    × (after.signals ≡ (
        if before.is_running
        then (if before.heeds_term then term ∷ before.signals else kill ∷ term ∷ before.signals)
        else before.signals))

child-Ended : (c : Child) → Ended c (wait_or_kill (send_term c))
unfolding Ended
child-Ended c = go c.is_running c.heeds_term
  where
    with : Bool → Bool → Child
    with runs heeds = record c { is_running = runs; heeds_term = heeds }

    go : (runs heeds : Bool) → Ended (with runs heeds) (wait_or_kill (send_term (with runs heeds)))
    go true true = (refl, refl, refl)
    go true false = (refl, refl, refl)
    go false heeds = (refl, refl, refl)

-- Each of the children, in their order.
unfoldable pub AllEnded : List Child → List Child → Type 0
unfolding Ended
AllEnded [] [] = Unit
AllEnded [] (d ∷ ds) = ⊥
AllEnded (c ∷ cs) [] = ⊥
AllEnded (c ∷ cs) (d ∷ ds) = Ended c d × AllEnded cs ds

terminate-AllEnded : (children : List Child) → AllEnded children (Paxos.terminate children)
unfolding AllEnded Paxos.terminate
terminate-AllEnded [] = tt
terminate-AllEnded (c ∷ children) = (child-Ended c, terminate-AllEnded children)

-- What each refusal of the Paxos runtime's `run` says of what it found.
abbrev pub Causes : Paxos.Course → Reason → Type 0
Causes c link_in_the_way = (c.cache_is_link ≡ true) ⊎ (c.events_is_link ≡ true)
Causes c bad_port = c.has_port ≡ false
Causes c system_error = (c.cache_fails ≡ true) ⊎ ((c.events_fails ≡ true) ⊎ (c.lock_fails ≡ true))
Causes c already_running = c.is_locked ≡ true
Causes c why = ⊥

-- Of a run of the Paxos runtime, by its outcome.
abbrev pub PaxosLeaves : Paxos.Course → Paxos.Ended → Type 0
PaxosLeaves c (Paxos.refused_run why) = Causes c why
PaxosLeaves c (Paxos.ended code children outside file) =
    (code ≡ some (if c.is_interrupted then 0 else 1))
    × AllEnded (Paxos.started c) children
    × (outside ≡ none)
    × (file ≡ absent)

no_child : (command : Option (List String)) → Paxos.child_if command none ≡ none
no_child none = refl
no_child (some command) = refl

paxos_ended-Leaves :
    (c : Paxos.Course) (signal : Option ℕ) (unlisted : Option Paxos.Behaviour)
    → signal ≡ none
    → unlisted ≡ none
    → PaxosLeaves c (
        Paxos.ended
          (if is_some signal then none else some (if c.is_interrupted then 0 else 1))
          (Paxos.terminate_until signal (Paxos.started c))
          (Paxos.child_if
            (Paxos.next_command (Paxos.commands c.setting) (Paxos.started c))
            unlisted)
          (if is_some signal then c.file else absent))
unfolding Paxos.terminate_until
paxos_ended-Leaves c none none s u = (
  refl,
  terminate-AllEnded (Paxos.started c),
  no_child (Paxos.next_command (Paxos.commands c.setting) (Paxos.started c)),
  refl,
)
paxos_ended-Leaves c none (some b) s u = absurd cc
paxos_ended-Leaves c (some turns) unlisted s u = absurd cc

-- A run of the Paxos runtime that gets no signal while it ends its processes, and none between the
-- start of a process and its entry in the list, leaves none of the processes running that it
-- started, and no record, whether it was interrupted, a process ended, or the system refused
-- something: it signals none that had ended, and sends SIGKILL only after SIGTERM did not help; its
-- exit code says whether it was interrupted. A run that is refused starts nothing, and only because
-- .cache or events is a link, the system refused to make one of them or to open the lock, the port
-- is no number, or another run has the lock.
pub paxos_run-Leaves :
    (c : Paxos.Course) → c.second_signal ≡ none → c.unlisted ≡ none → PaxosLeaves c (Paxos.run c)
unfolding Paxos.run Paxos.astray
paxos_run-Leaves c unbroken listed =
    go c.cache_is_link c.cache_fails c.events_is_link c.events_fails c.has_port c.lock_fails
      c.is_locked refl refl refl refl refl refl refl
  where
    go :
        (cache no_cache events no_events port no_lock locked : Bool)
        → c.cache_is_link ≡ cache
        → c.cache_fails ≡ no_cache
        → c.events_is_link ≡ events
        → c.events_fails ≡ no_events
        → c.has_port ≡ port
        → c.lock_fails ≡ no_lock
        → c.is_locked ≡ locked
        → PaxosLeaves c (
            if cache
            then Paxos.refused_run link_in_the_way
            else if no_cache
            then Paxos.refused_run system_error
            else if events
            then Paxos.refused_run link_in_the_way
            else if no_events
            then Paxos.refused_run system_error
            else if not port
            then Paxos.refused_run bad_port
            else if no_lock
            then Paxos.refused_run system_error
            else if locked
            then Paxos.refused_run already_running
            else Paxos.ended
                (Paxos.code_of c)
                (Paxos.terminate_until c.second_signal (Paxos.started c))
                (Paxos.astray c)
                (if is_some c.second_signal then c.file else absent))
    go true _ _ _ _ _ _ a1 a2 a3 a4 a5 a6 a7 = inl a1
    go false true _ _ _ _ _ a1 a2 a3 a4 a5 a6 a7 = inl a2
    go false false true _ _ _ _ a1 a2 a3 a4 a5 a6 a7 = inr a3
    go false false false true _ _ _ a1 a2 a3 a4 a5 a6 a7 = inr (inl a4)
    go false false false false false _ _ a1 a2 a3 a4 a5 a6 a7 = a5
    go false false false false true true _ a1 a2 a3 a4 a5 a6 a7 = inr (inr a6)
    go false false false false true false true a1 a2 a3 a4 a5 a6 a7 = a7
    go false false false false true false false a1 a2 a3 a4 a5 a6 a7 =
        paxos_ended-Leaves c c.second_signal c.unlisted unbroken listed

unfoldable pub ServerEnded : Option Child → Option Child → Type 0
unfolding Ended
ServerEnded none none = Unit
ServerEnded none (some d) = ⊥
ServerEnded (some c) none = ⊥
ServerEnded (some c) (some d) = Ended c d

server-Ended : (server : Option Child) → ServerEnded server (GoServer.end_server server)
unfolding ServerEnded GoServer.end_server
server-Ended none = tt
server-Ended (some c) = child-Ended c

abbrev pub GoLeaves : GoServer.Course → GoServer.Ended → Type 0
GoLeaves c (GoServer.refused_run why) = (c.cache_is_link || c.is_locked) ≡ true
GoLeaves c (GoServer.ended code server file) = ServerEnded c.server server × (file ≡ absent)

-- The same of the Go server's runtime and its one process, where no signal comes while that process
-- is ended.
pub go_run-Leaves : (c : GoServer.Course) → GoLeaves c (GoServer.run c)
unfolding GoServer.run
go_run-Leaves c = go c.cache_is_link c.is_locked
  where
    with : Bool → Bool → GoServer.Course
    with cache locked = record c { cache_is_link = cache; is_locked = locked }

    go : (cache locked : Bool) → GoLeaves (with cache locked) (GoServer.run (with cache locked))
    go true locked = refl
    go false true = refl
    go false false = (server-Ended c.server, refl)
