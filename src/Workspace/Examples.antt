-- ===== src/Workspace/Examples.antt =====
-- A workspace of two projects of different names, and a third directory.
use lean_fm.Common.{
  ℕ, suc, String, ◌≡◌, refl, Bool, true, false, ◌||◌, none, some, [], ◌∷◌, ◌++◌, arith, is_some,
  is_letter, is_digit, All,
}
use lean_fm.Common.Table.{lookup, insert}
use lean_fm.Workspace.Names.{valid_identity, stem_of, candidate}
use lean_fm.Workspace.Projects.{
  text, Info, Manifest, absent, holds, Child, Base, discover, identity_of, project, list_projects,
}
use lean_fm.Workspace.Reserve.{new_child, is_taken, is_project, is_free, reserve, try_names}
use lean_fm.Workspace.Fresh.{reserve_fresh, reserve_finds}
use lean_fm.Workspace.Listing.{list_resolves}

abbrev is_alnum : ℕ → Bool
is_alnum c = is_letter c || is_digit c

abbrev info : String → Info
info name = record { project_id = some (text name); id = none; root = none; paths = [] }

abbrev child : String → Manifest → Child
child name manifest = record (new_child name) { manifest = manifest }

abbrev base : Base
base = record {
  is_linked = false;
  is_inside = true;
  children = child "Demo" absent ∷ child "Shop" (holds (some (info "Shop"))) ∷ [];
}

abbrev made : Base
made = record base { children = base.children ++ new_child "Demo-2" ∷ [] }

second_name :
    (left : ℕ)
    → try_names is_alnum base (stem_of "Demo!") (suc (suc left)) 1 ≡ some (made, "Demo-2")
unfolding try_names is_free discover stem_of candidate valid_identity
second_name left = refl

reserve_fresh_example :
    (valid_identity is_alnum "Demo-2" ≡ true)
    × (is_project is_alnum base "Demo-2" ≡ false)
    × (is_taken base "Demo-2" ≡ false)
    × (made.children ≡ base.children ++ new_child "Demo-2" ∷ [])
unfolding reserve
reserve_fresh_example = reserve_fresh is_alnum base made "Demo!" "Demo-2" (second_name 9998)

reserve_finds_example : is_some (reserve is_alnum base "Demo!") ≡ true
unfolding is_free discover stem_of candidate valid_identity
reserve_finds_example = reserve_finds is_alnum base "Demo!" 2 refl (omega arith) (omega arith) refl

list_resolves_example :
    All
      (λ (x : Child × Info). project is_alnum base (identity_of x.1) ≡ some x)
      ((child "Shop" (holds (some (info "Shop"))), info "Shop") ∷ [])
unfolding list_projects discover lookup insert
list_resolves_example =
    list_resolves is_alnum base ((child "Shop" (holds (some (info "Shop"))), info "Shop") ∷ []) refl
