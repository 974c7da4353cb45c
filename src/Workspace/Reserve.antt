-- ===== src/Workspace/Reserve.antt =====
-- `reserve`: a new directory under projects/, named after a caller's text.
use lean_fm.Common.{
  ℕ, zero, suc, ◌+◌, String, Bool, true, false, not, ◌&&◌, Option, none, some, [], ◌∷◌, ◌++◌,
  if◌then◌else◌, ◌==◌, any,
}
use lean_fm.Workspace.Names.{valid_identity, candidate, stem_of}
use lean_fm.Workspace.Projects.{Child, Base, absent, is_base, discover, has_identity}

-- What `path.mkdir()` makes.
abbrev pub new_child : String → Child
new_child name = record {
  name = name;
  is_linked = false;
  is_dir = true;
  is_inside = true;
  manifest = absent;
  old_manifest = absent;
}

-- A name that `mkdir` finds taken, whatever bears it.
abbrev pub is_taken : Base → String → Bool
is_taken b name = any (λ c. c.name == name) b.children

abbrev pub is_project : (ℕ → Bool) → Base → String → Bool
is_project is_alnum b identity = any (has_identity identity) (discover is_alnum b.children)

unfoldable pub is_free : (ℕ → Bool) → Base → String → Bool
is_free is_alnum b name =
    valid_identity is_alnum name && not (is_project is_alnum b name) && not (is_taken b name)

abbrev pub make : Base → String → Base × String
make b name = (record b { children = b.children ++ new_child name ∷ [] }, name)

-- The loop over the ordinals, `left` of them.
unfoldable pub try_names : (ℕ → Bool) → Base → String → ℕ → ℕ → Option (Base × String)
unfolding is_free
try_names is_alnum b stem zero ordinal = none
try_names is_alnum b stem (suc left) ordinal =
    let rest = try_names is_alnum b stem left (ordinal + 1) in
    let name = candidate stem ordinal in
    if is_free is_alnum b name then some (make b name) else rest

abbrev pub max_ordinal : ℕ
max_ordinal = 10000

unfoldable pub reserve : (ℕ → Bool) → Base → String → Option (Base × String)
reserve is_alnum b name =
    if is_base b then try_names is_alnum b (stem_of name) max_ordinal 1 else none
