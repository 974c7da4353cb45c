-- ===== src/Sandbox/Walls.antt =====
-- What the sandboxes let a command do.
use lean_fm.Common.{String, Bool, true, List, [], ◌∷◌, ◌≡◌, if◌then◌else◌, ◌+s◌}
use lean_fm.Sandbox.Flags.{Flag, writable, is_walled}
use lean_fm.Sandbox.Commands.{Places}

-- A sandbox with all walls, from which only these files outside can be written.
abbrev pub Confines : List Flag → List (String × String) → Type 0
Confines flags outside = (is_walled flags ≡ true) × (writable flags ≡ outside)

abbrev pub check_writes : Places → Bool → List (String × String)
check_writes p is_book =
    (p.cache, "/work/.cache") ∷ (if is_book then (p.root +s "/book", "/work/book") ∷ [] else [])
