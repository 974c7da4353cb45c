-- ===== src/Traces/IslandsOrder.antt =====
-- The order of the trace of projects/IslandUploads/scripts/mcp_islands.py.
use lean_fm.Common.{
  ℕ, suc, ◌≡◌, refl, String, Bool, true, false, List, [], ◌∷◌, if◌then◌else◌, length, arith,
  slice_from, starts_with, ◌+s◌,
}
use lean_fm.Traces.Log.{Log, empty_log, known, add_event}
use lean_fm.Traces.Causal.{
  IsLog, IsOrdered, empty_log-IsLog, length-add_event, Named, known-Named, next-IsLog,
}
use lean_fm.Traces.Islands

causes_of-Named : (label : String) (log : Log) → IsLog log → Named log (Islands.causes_of label log)
unfolding Islands.causes_of
causes_of-Named label log h =
    go (starts_with label "Commit") (known ("Import" +s slice_from 6 label) log.sent)
      (known-Named ("Import" +s slice_from 6 label) log h)
  where
    go :
        (b : Bool) (first : List ℕ)
        → Named log first
        → Named log (
            if b
            then Islands.first_of first (known ("Begin" +s slice_from 6 label) log.sent)
            else [])
    go false first f = tt
    go true (i ∷ is) f = f
    go true [] f = known-Named ("Begin" +s slice_from 6 label) log h

islands_loop :
    (k : ℕ) (log : Log) (labels : List String)
    → k ≡ suc (length log.events)
    → IsLog log
    → IsLog (Islands.follow k log labels)
unfolding Islands.follow Islands.link
islands_loop k log [] size h = h
islands_loop k log (label ∷ labels) size h =
    let l = Islands.link label log in
    let more = length-add_event k label l log in
    islands_loop (suc k) (add_event k label l log) labels (omega (arith, size, more))
      (next-IsLog k label l log size h (causes_of-Named label log h))

-- The trace of any path numbers its events from 1, gives each the last earlier event of its
-- sender as its predecessor, and names only earlier events as causes.
pub islands-IsOrdered : (labels : List String) → IsOrdered [] (Islands.trace labels)
unfolding Islands.trace
islands-IsOrdered labels = (islands_loop 1 empty_log labels refl empty_log-IsLog).ordered
