-- ===== src/Traces/Islands.antt =====
-- `endpoints` and `trace` of projects/IslandUploads/scripts/mcp_islands.py.
use lean_fm.Common.{
  ℕ, suc, String, Bool, List, [], ◌∷◌, if◌then◌else◌, ◌==◌, ◌+s◌, any, starts_with, slice_last,
  slice_from, slice_but_last, slice_to,
}
use lean_fm.Traces.Log.{Event, Log, Link, empty_log, known, add_event}

-- The dictionary of `shard`.
abbrev pub shard : String → String
shard c = if c == "A" then "shard-a" else if c == "B" then "shard-b" else "shard-a"

abbrev pub starts_with_any : String → List String → Bool
starts_with_any label prefixes = any (λ prefix. starts_with label prefix) prefixes

abbrev pub is_any : String → List String → Bool
is_any label names = any (λ name. label == name) names

unfoldable pub endpoints : String → String × String
endpoints label =
    if label == "RestartB"
    then ("shard-b", "shard-b")
    else if starts_with_any label ("Start" ∷ "Done" ∷ "Fail" ∷ "Retry" ∷ "Backoff" ∷ [])
    then ("lanes", "lanes")
    else if starts_with label "ImportA"
    then ("shard-b", "shard-b")
    else if starts_with_any label ("Begin" ∷ "Commit" ∷ [])
    then (let s = shard (slice_to 1 (slice_last 2 label)) in (s, s))
    else if label == "ImportB1"
    then ("shard-b", "shard-a")
    else if label == "PullAtoB"
    then ("shard-a", "shard-b")
    else if label == "PullBtoA"
    then ("shard-b", "shard-a")
    else if is_any label ("Partition" ∷ "Heal" ∷ [])
    then ("network", "network")
    else if label == "FeedPage"
    then ("shard-a", "browser")
    else if is_any label ("Missed" ∷ "Synced" ∷ [])
    then ("observer", "observer")
    else if is_any label ("TightenOnA" ∷ "MergeOnA" ∷ [])
    then ("shard-a", "shard-a")
    else if is_any label ("EditOnB" ∷ "MergeOnB" ∷ [])
    then ("shard-b", "shard-b")
    else if is_any (slice_but_last 1 label) ("Read" ∷ "Denied" ∷ "Leak" ∷ [])
    then (shard (slice_last 1 label), "reader")
    else ("shard-a", "shard-a")

-- The later test overrides the earlier one.
abbrev pub first_of : List ℕ → List ℕ → List ℕ
first_of [] ids = ids
first_of (i ∷ is) ids = i ∷ is

unfoldable pub causes_of : String → Log → List ℕ
unfolding known
causes_of label log =
    if starts_with label "Commit"
    then first_of (known ("Import" +s slice_from 6 label) log.sent)
        (known ("Begin" +s slice_from 6 label) log.sent)
    else []

abbrev pub link_of : String × String → List ℕ → Link
link_of (src, dst) causes = record { src = src; dst = dst; causes = causes }

unfoldable pub link : String → Log → Link
unfolding endpoints causes_of
link label log = link_of (endpoints label) (causes_of label log)

unfoldable pub follow : ℕ → Log → List String → Log
unfolding link add_event
follow k log [] = log
follow k log (label ∷ labels) = follow (suc k) (add_event k label (link label log) log) labels

-- The events of a path, given by the messages of its steps.
unfoldable pub trace : List String → List Event
unfolding follow
trace labels = (follow 1 empty_log labels).events
