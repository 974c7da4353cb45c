-- ===== src/Common/Lists.antt =====
-- Lists measured by native numbers, the loops `any`, `all` and `sum`, and last elements.
use Prim.Native.Nat.{ℕ, zero, suc, ◌+◌, ◌-◌}
use mathlib.Core.Path.{◌≡◌, refl, sym, ap, ◌∙◌}
use mathlib.Core.Bool.{Bool, true, false, ◌&&◌, ◌||◌}
use mathlib.Core.Option.{Option, none, some}
use mathlib.Core.List.{List, [], ◌∷◌, ◌++◌}
use native.Mathlib.Omega.{arith}

module _ {ℓ} {A : Type ℓ} where
  abbrev pub length : List A → ℕ
  length [] = 0
  length (x ∷ xs) = suc (length xs)

  abbrev pub drop : ℕ → List A → List A
  drop zero xs = xs
  drop (suc n) [] = []
  drop (suc n) (x ∷ xs) = drop n xs

  abbrev pub any : (A → Bool) → List A → Bool
  any p [] = false
  any p (x ∷ xs) = p x || any p xs

  abbrev pub all : (A → Bool) → List A → Bool
  all p [] = true
  all p (x ∷ xs) = p x && all p xs

  -- `xs[-1]`, if there is one
  abbrev pub get_last? : List A → Option A
  get_last? [] = none
  get_last? (x ∷ []) = some x
  get_last? (x ∷ y ∷ xs) = get_last? (y ∷ xs)

  abbrev pub sum_by : (A → ℕ) → List A → ℕ
  sum_by f [] = 0
  sum_by f (x ∷ xs) = f x + sum_by f xs

module _ {ℓ} {A : Type ℓ} where
  -- `xs[-n:]`
  abbrev pub take_last : ℕ → List A → List A
  take_last n xs = drop (length xs - n) xs

  pub length-append : (xs ys : List A) → length (xs ++ ys) ≡ length xs + length ys
  length-append [] ys = omega arith
  length-append (x ∷ xs) ys = omega (arith, length-append xs ys)

  pub length-drop : (n : ℕ) (xs : List A) → length (drop n xs) ≡ length xs - n
  length-drop zero xs = omega arith
  length-drop (suc n) [] = omega arith
  length-drop (suc n) (x ∷ xs) = omega (arith, length-drop n xs)

  pub get_last?-snoc : (xs : List A) (x : A) → get_last? (xs ++ x ∷ []) ≡ some x
  get_last?-snoc [] x = refl
  get_last?-snoc (y ∷ []) x = refl
  get_last?-snoc (y ∷ z ∷ xs) x = get_last?-snoc (z ∷ xs) x

  pub sum_by-append : (f : A → ℕ) (xs ys : List A) → sum_by f (xs ++ ys) ≡ sum_by f xs + sum_by f ys
  sum_by-append f [] ys = omega arith
  sum_by-append f (x ∷ xs) ys = omega (arith, sum_by-append f xs ys)

  -- A predicate at every element; it computes to tuples.
  abbrev pub All {κ} : (A → Type κ) → List A → Type κ
  All P [] = Unit
  All P (x ∷ xs) = P x × All P xs

module _ {ℓ} {A : Type ℓ} where
  abbrev pub cons_if : Bool → A → List A → List A
  cons_if true x xs = x ∷ xs
  cons_if false x xs = xs

  -- `[x for x in xs if p(x)]`
  abbrev pub filter : (A → Bool) → List A → List A
  filter p [] = []
  filter p (x ∷ xs) = cons_if (p x) x (filter p xs)

  cons_if-append :
      (b : Bool) (x : A) (xs ys : List A) → cons_if b x (xs ++ ys) ≡ cons_if b x xs ++ ys
  cons_if-append true x xs ys = refl
  cons_if-append false x xs ys = refl

  pub filter-append :
      (p : A → Bool) (xs ys : List A) → filter p (xs ++ ys) ≡ filter p xs ++ filter p ys
  filter-append p [] ys = refl
  filter-append p (x ∷ xs) ys =
      ap (cons_if (p x) x) (filter-append p xs ys)
      ∙ cons_if-append (p x) x (filter p xs) (filter p ys)

  -- Of a list that names `x`, all that passes is `x` if one element passes.
  pub filter-single :
      (p : A → Bool) (xs : List A) (x : A) (ys : List A)
      → p x ≡ true
      → length (filter p (xs ++ x ∷ ys)) ≡ 1
      → filter p (xs ++ x ∷ ys) ≡ x ∷ []
  filter-single p xs x ys hit one =
      let here : filter p (x ∷ ys) ≡ x ∷ filter p ys = ap (λ b. cons_if b x (filter p ys)) hit in
      let whole : filter p (xs ++ x ∷ ys) ≡ filter p xs ++ (x ∷ filter p ys) =
        filter-append p xs (x ∷ ys) ∙ ap (λ l. filter p xs ++ l) here in
      whole ∙ single (filter p xs) (filter p ys) (ap length (sym whole) ∙ one)
    where
      single :
          (before after : List A) → length (before ++ x ∷ after) ≡ 1 → before ++ x ∷ after ≡ x ∷ []
      single [] [] h = refl
      single [] (y ∷ after) h = absurd (omega arith)
      single (y ∷ before) after h = absurd (omega (arith, h, length-append before (x ∷ after)))
