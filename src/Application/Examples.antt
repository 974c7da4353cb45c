-- ===== src/Application/Examples.antt =====
-- An application that runs, its owner's calls and another's.
use lean_fm.Common.{String, ◌≡◌, ◌≢◌, refl, true, none, some, [], ◌==◌, eq_iff, get_or}
use lean_fm.Application.Types.{
  running, Record, World, refused, other_owner, other_owner_runs, no_content, start, status, stop,
  open_preview, Payload,
}
use lean_fm.Application.Lifecycle.{new_record}
use lean_fm.Application.Commands.{proxy_request, command}
use lean_fm.Application.Access.{other_owner_refused, proxy_requires}

abbrev ann : String
ann = "ann"

abbrev bob : String
bob = "bob"

abbrev world : World
world = record {
  alive = λ r. true;
  healthy = λ r. true;
  revision = "r1";
  contract = some (record { relative_urls = true });
  makefile_size = 100;
  live_applications = 2;
  instance_token = "00000000000000aa";
  nonce_token = "n1";
  capability_token = "c1";
  exchange = λ r. none;
}

abbrev app : Record
app = record (new_record world "ann" "shop") { state = running }

abbrev payload : String → Payload
payload owner = record {
  owner = owner;
  project_id = "shop";
  instance_id = "00000000000000aa";
  capability = "c1";
  is_options = true;
}

ann-differs : ann ≢ bob
ann-differs e = let same : (ann == bob) ≡ true = (eq_iff ann bob).1 e in cc

other_owner_refused_example :
    (command world start (payload "bob") (some app) [] ≡ (refused other_owner_runs, some app))
    × (command world status (payload "bob") (some app) [] ≡ (refused other_owner, some app))
    × (command world stop (payload "bob") (some app) [] ≡ (refused other_owner, some app))
    × (command world open_preview (payload "bob") (some app) [] ≡ (refused other_owner, some app))
other_owner_refused_example = other_owner_refused world (payload "bob") app [] ann-differs refl refl

proxy_requires_example :
    (r : Record) × (some app ≡ some r)
    × ("c1" ≡ get_or r.capability "")
    × ("00000000000000aa" ≡ r.instance_id)
    × (r.state ≡ running)
    × (world.alive r ≡ true)
    × (r.revision ≡ world.revision)
unfolding proxy_request
proxy_requires_example = proxy_requires world (payload "") (some app) no_content refl
