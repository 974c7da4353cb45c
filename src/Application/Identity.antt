-- ===== src/Application/Identity.antt =====
-- `record`, `alive` and `exchange`: which record, which process and which answer a call trusts.
use lean_fm.Common.{
  ℕ, String, Bool, true, false, not, ◌&&◌, Option, none, some, List, [], ◌∷◌, if◌then◌else◌, ◌==◌,
  ltb, leb, is_empty,
}
use lean_fm.Application.Types.{Record}
use lean_fm.Paths.Confined.{Parts, confined}

-- state.json: its size, its entry "root" and the rest.
pub record Stored : Type 0 where
  pub size : ℕ
  pub root : String
  pub value : Record

pub data Found : Type 0 where
  empty oversized : Found
  found : Record → Found

unfoldable pub read_record : String → Option Stored → Found
read_record root none = empty
read_record root (some stored) =
    if ltb 16384 stored.size
    then oversized
    else if not (stored.root == root)
    then empty
    else found stored.value

-- The entries of a record that name a process; `pid` is none where it is no number.
pub record Claim : Type 0 where
  pub pid : Option ℕ
  pub start_time : String
  pub root : String
  pub instance_id : String

-- A process as /proc shows it: the first field of its command line resolved, the other fields, its
-- executable, its start time and whether the caller's user owns it.
pub record Process : Type 0 where
  pub program : String
  pub arguments : List String
  pub executable : String
  pub start_time : String
  pub is_own : Bool

-- The script's own path and the interpreter's.
pub record Installation : Type 0 where
  pub script : String
  pub python : String

-- The equality of two lists
unfoldable pub same_texts : List String → List String → Bool
same_texts [] [] = true
same_texts [] (t ∷ ts) = false
same_texts (s ∷ ss) [] = false
same_texts (s ∷ ss) (t ∷ ts) = s == t && same_texts ss ts

abbrev pub expected : Installation → Claim → List String
expected i c = i.script ∷ "supervise" ∷ c.root ∷ c.instance_id ∷ []

unfoldable pub is_process : Installation → Claim → Process → Bool
unfolding same_texts
is_process i c p =
    p.start_time == c.start_time
    && same_texts p.arguments (expected i c)
    && p.program == i.python
    && p.executable == i.python
    && p.is_own

abbrev pub is_shown : Installation → Claim → Option Process → Bool
is_shown i c none = false
is_shown i c (some p) = is_process i c p

-- `alive`, of the processes by number.
unfoldable pub alive : Installation → (ℕ → Option Process) → Claim → Bool
unfolding is_process
alive i processes c = elim c.pid [
  | none ↦ false
  | some pid ↦ if leb pid 1 then false else is_shown i c (processes pid)
]

-- A line of the application's socket: whether it is complete within the limit, the entry "error"
-- of its object, if it is there, and the object.
pub record Line : Type 0 where
  pub is_complete : Bool
  pub error : Option String
  pub value : String

abbrev pub socket_of : String → Parts
socket_of instance = ".leanfm" ∷ "application" ∷ instance ∷ "bridge" ∷ "app.sock" ∷ []

abbrev pub reply : Line → Option String
reply line = if not line.is_complete then none else elim line.error [
  | none ↦ some line.value
  | some message ↦ if is_empty message then some line.value else none
]

abbrev pub received : Option Line → Option String
received none = none
received (some line) = reply line

abbrev pub connected : (Parts → Option Line) → Option Parts → Option String
connected connect none = none
connected connect (some path) = received (connect path)

-- `exchange`, over the answers at a socket; an error is none.
unfoldable pub exchange : (Parts → Bool) → (Parts → Option Line) → Record → Option String
unfolding confined
exchange is_link connect r = connected connect (confined is_link (socket_of r.instance_id))
