-- ===== src/Runtime/Examples.antt =====
-- A contract for port 8081, and a probe that passes.
use lean_fm.Common.{◌*◌, ◌≤◌, ◌<◌, ◌≡◌, refl, true, some, List, [], ◌∷◌, All}
use lean_fm.Runtime.Contract.{Value, World, Receipt}
use lean_fm.Runtime.Probe.{Poll, silent, answered, Page, Socket, probe}
use lean_fm.Runtime.Evidence.{IsReady, IsLoopback, probe_requires}

abbrev value : Value
value = record {
  version = 1;
  kind = "http";
  directory = "source";
  command = "make" ∷ "run" ∷ [];
  host = "127.0.0.1";
  port = some 8081;
  readiness_path = some "/health";
  page_path = some "/";
}

abbrev world : World
world = record {
  runtime_size = some 200;
  runtime_value = value;
  memory_size = some 500;
  memory_has_text = true;
  makefile_size = some 900;
  reserved_port = 8080;
  revision = "r1";
}

abbrev receipt : Receipt
receipt = record { status = "validated"; revision = "r1" }

abbrev turns : List Poll
turns = silent ∷ answered 200 2 ∷ []

abbrev page : Page
page = record { status = 200; bytes = 300 }

abbrev sockets : List Socket
sockets = record { address = "0100007F"; port = 8081 } ∷ []

probe_requires_example :
    IsReady turns
    × (page.status ≡ 200)
    × (0 < page.bytes)
    × (page.bytes ≤ 1024 * 1024)
    × All (IsLoopback 8081) sockets
    × (true ≡ true)
unfolding probe
probe_requires_example = probe_requires 8081 turns page sockets true refl
