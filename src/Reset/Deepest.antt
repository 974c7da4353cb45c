-- ===== src/Reset/Deepest.antt =====
-- The order in which the directories without projects are removed.
use lean_fm.Common.{ℕ, String, Bool, true, false, List, [], ◌∷◌, if◌then◌else◌, ltb}
use mathlib.Core.List.{Memᴰ}
use lean_fm.Reset.Apply.{insert_deep, deepest_first}

insert-member :
    (x : ℕ × String) (ys : List (ℕ × String)) (z : ℕ × String)
    → Memᴰ z (insert_deep x ys)
    → Memᴰ z (x ∷ ys)
insert-member x [] z h = h
insert-member x (y ∷ ys) z h = go (ltb x.0 y.0) (insert-member x ys z) h
  where
    later : Memᴰ z (x ∷ ys) → Memᴰ z (x ∷ y ∷ ys)
    later (Memᴰ.head e) = Memᴰ.head e
    later (Memᴰ.tail m) = Memᴰ.tail (Memᴰ.tail m)

    moved :
        (Memᴰ z (insert_deep x ys) → Memᴰ z (x ∷ ys))
        → Memᴰ z (y ∷ insert_deep x ys)
        → Memᴰ z (x ∷ y ∷ ys)
    moved below (Memᴰ.head e) = Memᴰ.tail (Memᴰ.head e)
    moved below (Memᴰ.tail m) = later (below m)

    go :
        (b : Bool)
        → (Memᴰ z (insert_deep x ys) → Memᴰ z (x ∷ ys))
        → Memᴰ z (if b then y ∷ insert_deep x ys else x ∷ y ∷ ys)
        → Memᴰ z (x ∷ y ∷ ys)
    go true below m = moved below m
    go false below m = m

-- The sorted scaffolds are those of the plan.
pub deepest-member :
    (xs : List (ℕ × String)) (z : ℕ × String) → Memᴰ z (deepest_first xs) → Memᴰ z xs
deepest-member [] z h = h
deepest-member (x ∷ xs) z h = head_or (insert-member x (deepest_first xs) z h) (deepest-member xs z)
  where
    head_or :
        Memᴰ z (x ∷ deepest_first xs) → (Memᴰ z (deepest_first xs) → Memᴰ z xs) → Memᴰ z (x ∷ xs)
    head_or (Memᴰ.head e) below = Memᴰ.head e
    head_or (Memᴰ.tail m) below = Memᴰ.tail (below m)
