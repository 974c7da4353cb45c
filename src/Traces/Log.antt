-- ===== src/Traces/Log.antt =====
-- The events of a trace and the tables that its loop keeps, which both clients' `trace` share.
use lean_fm.Common.{ℕ, String, Option, none, some, List, [], ◌∷◌, ◌++◌}
use lean_fm.Common.Table.{Table, lookup, insert}

-- An envelope; an identifier is the number `k` of `e{k}`.
pub record Event : Type 0 where
  pub id : ℕ
  pub src : String
  pub dst : String
  pub message : String
  pub prev_ids : List ℕ
  pub cause_ids : List ℕ

-- `events`, `last_by` and the identifiers by message (`sent`, `by_label`)
pub record Log : Type 0 where
  pub events : List Event
  pub last_by : Table ℕ
  pub sent : Table ℕ

-- The end points and the causes that a message has.
pub record Link : Type 0 where
  pub src : String
  pub dst : String
  pub causes : List ℕ

abbrev pub empty_log : Log
empty_log = record { events = []; last_by = []; sent = [] }

abbrev pub to_list : Option ℕ → List ℕ
to_list none = []
to_list (some i) = i ∷ []

-- `[table[key]] if key in table else []`
unfoldable pub known : String → Table ℕ → List ℕ
unfolding lookup
known key table = to_list (lookup key table)

unfoldable pub envelope : ℕ → String → Link → Log → Event
unfolding known
envelope k label link log = record {
  id = k;
  src = link.src;
  dst = link.dst;
  message = label;
  prev_ids = known link.src log.last_by;
  cause_ids = link.causes;
}

-- The end of the loop's body.
unfoldable pub add_event : ℕ → String → Link → Log → Log
unfolding envelope insert
add_event k label link log = record {
  events = log.events ++ envelope k label link log ∷ [];
  last_by = insert link.src k log.last_by;
  sent = insert label k log.sent;
}
