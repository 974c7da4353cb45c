-- ===== src/Specification/Examples.antt =====
-- A specification that passes its check.
use lean_fm.Common.{true, false, none, some, [], ◌∷◌}
use lean_fm.Specification.Check.{ended, World, Views, check}
use lean_fm.Specification.Promotion.{Promotes, check-Promotes}

abbrev world : World
world = record {
  is_linked = false;
  input_sizes = some 900 ∷ some 80 ∷ [];
  has_sandbox = true;
  is_free = true;
  is_built = true;
  before = ("spec/Requirements.lean", "d1") ∷ [];
  after = ("spec/Requirements.lean", "d1") ∷ [];
  requirements_run = ended 0 false;
  implementation_run = ended 1 false;
  views_run = ended 0 false;
  catalog = some (record { errors = some 0; tasks = 2; lacks_grammar = false });
}

abbrev no_views : Views
no_views = record { catalog = none; report = none }

check-Promotes_example :
    Promotes world "Shop.requirements" "" no_views (check world "Shop.requirements" "" "" no_views)
check-Promotes_example = check-Promotes world "Shop.requirements" "" "" no_views
