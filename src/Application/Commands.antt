-- ===== src/Application/Commands.antt =====
-- The dispatch of `main` over the operations of a caller.
use lean_fm.Common.{
  String, Bool, true, false, not, ◌&&◌, ◌||◌, Option, none, some, List, if◌then◌else◌, ◌==◌, ◌+s◌,
  is_empty, get_or,
}
use lean_fm.Application.Types.{
  Record, World, View, Answer, ok, refused, Output, viewed, opened, no_content, proxied, Operation,
  start, status, stop, open_preview, proxy, unknown, Payload, sign_in, not_started,
  invalid_capability, stopped_or_stale, exchange_failed, unknown_operation,
}
use lean_fm.Application.Lifecycle.{is_running, no_view}
use lean_fm.Application.Lifecycle

abbrev pub to_output : Answer View → Answer Output
to_output (ok v) = ok (viewed v)
to_output (refused why) = refused why

abbrev pub needs_owner : Operation → Bool
needs_owner proxy = false
needs_owner unknown = false
needs_owner _ = true

abbrev pub is_live : World → Option Record → Bool
is_live w none = false
is_live w (some r) = w.alive r

abbrev pub stop_then : World → Payload → Lifecycle.Stopped → Answer Output × Option Record
stop_then w p (refused why, file, killed) = (refused why, file)
stop_then w p (ok _, file, killed) =
    (to_output (Lifecycle.status w p.owner p.project_id file), file)

abbrev pub prefix_of : String → Record → String
prefix_of project r =
    "/app-view/" +s project +s "/" +s r.instance_id +s "/" +s get_or r.capability "" +s "/"

abbrev pub open_view : Payload → Option Record → Answer View → Answer Output
open_view p file (refused why) = refused why
open_view p none (ok v) = refused not_started
open_view p (some r) (ok v) =
    if not (is_running v.state)
    then refused not_started
    else ok (opened v (prefix_of p.project_id r))

abbrev pub sent : Option String → Answer Output
sent none = refused exchange_failed
sent (some body) = ok (proxied body)

unfoldable pub proxy_request : World → Payload → Option Record → Answer Output
proxy_request w p none = refused invalid_capability
proxy_request w p (some r) =
    if not (p.capability == get_or r.capability "") || not (p.instance_id == r.instance_id)
    then refused invalid_capability
    else if not (is_running r.state) || not (w.alive r) || not (w.revision == r.revision)
    then refused stopped_or_stale
    else if p.is_options
    then ok no_content
    else sent (w.exchange r)

unfoldable pub dispatch :
    World
    → Operation
    → Payload
    → Option Record
    → List (Option Record)
    → Answer Output × Option Record
unfolding proxy_request
dispatch w start p file reads =
    let (answer, left) = Lifecycle.start w p.owner p.project_id file reads in
    (to_output answer, left)
dispatch w status p file reads = (to_output (Lifecycle.status w p.owner p.project_id file), file)
dispatch w stop p file reads = stop_then w p (Lifecycle.stop w p.owner p.instance_id file)
dispatch w open_preview p file reads =
    (open_view p file (Lifecycle.status w p.owner p.project_id file), file)
dispatch w proxy p file reads = (proxy_request w p file, file)
dispatch w unknown p file reads = (refused unknown_operation, file)

abbrev pub is_stop : Operation → Bool
is_stop stop = true
is_stop _ = false

unfoldable pub command :
    World
    → Operation
    → Payload
    → Option Record
    → List (Option Record)
    → Answer Output × Option Record
unfolding dispatch
command w op p file reads =
    if is_stop op && is_empty p.owner && not (is_live w file)
    then (ok (viewed (no_view p.project_id)), file)
    else if needs_owner op && is_empty p.owner
    then (refused sign_in, file)
    else dispatch w op p file reads
