-- ===== src/Specification/Promotion.antt =====
-- When the derived views of a specification are replaced.
use lean_fm.Common.{
  String, ◌≡◌, refl, Bool, true, ◌&&◌, Option, none, some, [], ◌∷◌, ◌==◌, eq_iff, all, arith,
}
use lean_fm.Specification.Check.{
  Digests, World, Views, Fault, is_bounded, run_fault, or_else, unless, implementation_fault,
  is_catalog, has_grammars, same_digests, first_fault, promoted, outcome, check,
}

unless-none :
    (holds : Bool) (fault : Fault) (rest : Option Fault)
    → unless holds fault rest ≡ none
    → (holds ≡ true) × (rest ≡ none)
unfolding unless
unless-none holds fault rest h = ground arith

or_else-none : (o rest : Option Fault) → or_else o rest ≡ none → (o ≡ none) × (rest ≡ none)
unfolding or_else
or_else-none none rest h = (refl, h)
or_else-none (some fault) rest h = absurd cc

same_digests-eq : (a b : Digests) → same_digests a b ≡ true → a ≡ b
unfolding same_digests
same_digests-eq [] [] h = refl
same_digests-eq [] (y ∷ b) h = absurd cc
same_digests-eq (x ∷ a) [] h = absurd cc
same_digests-eq ((x, v) ∷ a) ((y, u) ∷ b) h =
    let (names, values, rest) = parts (x == y) (v == u) (same_digests a b) h in
    cc ((eq_iff x y).0 names, (eq_iff v u).0 values, same_digests-eq a b rest)
  where
    parts : (p q r : Bool) → (p && q && r) ≡ true → (p ≡ true) × (q ≡ true) × (r ≡ true)
    parts p q r h = ground arith

-- What a promotion has passed.
pub record Passes (w : World) (requirement implementation : String) : Type 0 where
  pub bounded : all is_bounded w.input_sizes ≡ true
  pub isolated : w.has_sandbox ≡ true
  pub alone : w.is_free ≡ true
  pub requirements : run_fault w.requirements_run ≡ none
  pub implements : implementation_fault w implementation ≡ none
  pub views : run_fault w.views_run ≡ none
  pub derived : is_catalog w.catalog ≡ true
  pub grammars : has_grammars w.catalog ≡ true
  pub unchanged : w.before ≡ w.after

first_fault-Passes :
    (w : World) (requirement implementation constraints : String)
    → first_fault w requirement implementation constraints ≡ none
    → Passes w requirement implementation
unfolding first_fault
first_fault-Passes w requirement implementation constraints h =
    let (_, h₁) = unless-none _ _ _ h in
    let (_, h₂) = unless-none _ _ _ h₁ in
    let (_, h₃) = unless-none _ _ _ h₂ in
    let (bounded, h₄) = unless-none _ _ _ h₃ in
    let (isolated, h₅) = unless-none _ _ _ h₄ in
    let (alone, h₆) = unless-none _ _ _ h₅ in
    let (_, h₇) = unless-none _ _ _ h₆ in
    let (requirements, h₈) = or_else-none _ _ h₇ in
    let (implements, h₉) = or_else-none _ _ h₈ in
    let (views, k₁) = or_else-none _ _ h₉ in
    let (derived, k₂) = unless-none _ _ _ k₁ in
    let (grammars, k₃) = unless-none _ _ _ k₂ in
    let (same, _) = unless-none _ _ _ k₃ in
    record {
      bounded = bounded;
      isolated = isolated;
      alone = alone;
      requirements = requirements;
      implements = implements;
      views = views;
      derived = derived;
      grammars = grammars;
      unchanged = same_digests-eq w.before w.after same;
    }

-- What a check may leave: with a fault the views as they were; without one those of a check that
-- has passed.
abbrev pub Promotes : World → String → String → Views → Option Fault × Views → Type 0
Promotes w requirement implementation views (some fault, left) = left ≡ views
Promotes w requirement implementation views (none, left) =
    Passes w requirement implementation × (left ≡ promoted w requirement implementation)

-- A check that reports any fault leaves the catalog and the report as they were. One that reports
-- none has compiled everything in the sandbox, alone, without an error, found an error-free catalog
-- with tasks and grammars, and the inputs unchanged since they were read; it promotes that catalog.
pub check-Promotes :
    (w : World) (requirement implementation constraints : String) (views : Views)
    → Promotes w requirement implementation views
        (check w requirement implementation constraints views)
unfolding check
check-Promotes w requirement implementation constraints views =
    left (first_fault w requirement implementation constraints)
      (first_fault-Passes w requirement implementation constraints)
  where
    left :
        (o : Option Fault)
        → (o ≡ none → Passes w requirement implementation)
        → Promotes w requirement implementation views (outcome w requirement implementation views o)
    left none f = (f refl, refl)
    left (some fault) f = refl
