-- ===== src/Paths/Protected.antt =====
-- What an authorized path, and a patch that is applied, have passed.
use lean_fm.Common.{
  ℕ, ◌≤◌, String, ◌≡◌, refl, sym, ap, ◌∙◌, Bool, true, false, not, ◌&&◌, Option, none, some, List,
  [], ◌∷◌, ◌++◌, if◌then◌else◌, arith, ltb, eqb, ◌≢◌, ◌||◌, ◌==◌, any, starts_with, eq_iff,
}
use lean_fm.Paths.Confined.{
  Parts, is_absolute, relative_to_root, is_escape, walk, confined, join, is_reserved,
  unless_reserved, authorize_path,
}
use lean_fm.Paths.Patch.{
  Item, nothing, counts, renames, name, target_of, is_allowed, check_items, Git, Command, git_apply,
  git_apply_check, exit_code, targets_allowed, after_check, patch,
}

append-nil : (xs : Parts) → xs ++ [] ≡ xs
append-nil [] = refl
append-nil (x ∷ xs) = ap (λ (l : Parts). x ∷ l) (append-nil xs)

append-snoc : (xs : Parts) (y : String) (zs : Parts) → (xs ++ y ∷ []) ++ zs ≡ xs ++ y ∷ zs
append-snoc [] y zs = refl
append-snoc (x ∷ xs) y zs = ap (λ (l : Parts). x ∷ l) (append-snoc xs y zs)

step :
    (escape link : Bool) (o : Option Parts) (path : Parts)
    → (if escape then none else if link then none else o) ≡ some path
    → (escape ≡ false) × (link ≡ false) × (o ≡ some path)
step escape link o path e = ground arith

-- No part is refused, and no prefix from a given one on is a link.
abbrev IsWalked : (Parts → Bool) → Parts → Parts → Type 0
IsWalked is_link prefix [] = Unit
IsWalked is_link prefix (part ∷ rest) =
    (is_escape part ≡ false)
    × (is_link (prefix ++ part ∷ []) ≡ false)
    × IsWalked is_link (prefix ++ part ∷ []) rest

-- No part leads up or begins the path anew, and no prefix from a given one on is a link.
abbrev pub IsPlain : (Parts → Bool) → Parts → Parts → Type 0
IsPlain is_link prefix [] = Unit
IsPlain is_link prefix (part ∷ rest) =
    (part ≢ "..")
    × (starts_with part "/" ≡ false)
    × (is_link (prefix ++ part ∷ []) ≡ false)
    × IsPlain is_link (prefix ++ part ∷ []) rest

differs : (part text : String) → (part == text) ≡ false → part ≢ text
differs part text h e = let same = (eq_iff part text).1 e in cc

neither : (a b : Bool) → (a || b) ≡ false → (a ≡ false) × (b ≡ false)
neither a b h = ground arith

walked-IsPlain :
    (is_link : Parts → Bool) (prefix parts : Parts)
    → IsWalked is_link prefix parts
    → any is_absolute parts ≡ false
    → IsPlain is_link prefix parts
walked-IsPlain is_link prefix [] h k = tt
walked-IsPlain is_link prefix (part ∷ rest) (harmless, plain, others) k =
    let (relative, later) = neither (is_absolute part) (any is_absolute rest) k in
    let (below, inside) = neither (part == "..") (part == "/") harmless in
    (
      differs part ".." below,
      relative,
      plain,
      walked-IsPlain is_link (prefix ++ part ∷ []) rest others later,
    )

walk-IsWalked :
    (is_link : Parts → Bool) (prefix parts path : Parts)
    → walk is_link prefix parts ≡ some path
    → (path ≡ prefix ++ parts) × IsWalked is_link prefix parts
unfolding walk
walk-IsWalked is_link prefix [] path e =
    let same : prefix ≡ path = cc in (sym same ∙ sym (append-nil prefix), tt)
walk-IsWalked is_link prefix (part ∷ rest) path e =
    let next = prefix ++ part ∷ [] in
    let (harmless, plain, further) =
      step (is_escape part) (is_link next) (walk is_link next rest) path e in
    let (same, others) = walk-IsWalked is_link next rest path further in
    (same ∙ append-snoc prefix part rest, (harmless, plain, others))

unless_reserved-some :
    (o : Option Parts) (path : Parts)
    → unless_reserved o ≡ some path
    → (o ≡ some path) × (is_reserved (join path) ≡ false)
unless_reserved-some none path e = absurd cc
unless_reserved-some (some found) path e = kept (is_reserved (join found)) refl e
  where
    kept :
        (b : Bool)
        → is_reserved (join found) ≡ b
        → (if b then none else some found) ≡ some path
        → (some found ≡ some path) × (is_reserved (join path) ≡ false)
    kept true h e = absurd cc
    kept false h e =
        let same : found ≡ path = cc in (e, ap (λ (p : Parts). is_reserved (join p)) (sym same) ∙ h)

relative-some :
    (o : Option Parts) (path : Parts)
    → relative_to_root o ≡ some path
    → (o ≡ some path) × (any is_absolute path ≡ false)
relative-some none path e = absurd cc
relative-some (some found) path e = kept (any is_absolute found) refl e
  where
    kept :
        (b : Bool)
        → any is_absolute found ≡ b
        → (if b then none else some found) ≡ some path
        → (some found ≡ some path) × (any is_absolute path ≡ false)
    kept true h e = absurd cc
    kept false h e =
        let same : found ≡ path = cc in (e, ap (λ (p : Parts). any is_absolute p) (sym same) ∙ h)

-- A path that may be written is the one that was asked for, has no part that leads up or that
-- begins the path anew, as "/" and "//" do, passes through no symbolic link, and neither is nor
-- lies below any path that LeanFM keeps.
pub authorize_lem :
    (is_link : Parts → Bool) (parts path : Parts)
    → authorize_path is_link parts ≡ some path
    → (path ≡ parts) × IsPlain is_link [] parts × (is_reserved (join parts) ≡ false)
unfolding authorize_path confined
authorize_lem is_link parts path e =
    let (related, free) = unless_reserved-some (relative_to_root (confined is_link parts)) path e in
    let (walked, relative) = relative-some (confined is_link parts) path related in
    let (same, plain) = walk-IsWalked is_link [] parts path walked in
    (
      same,
      walked-IsPlain is_link [] parts plain
          (ap (λ (p : Parts). any is_absolute p) (sym same) ∙ relative),
      ap (λ (p : Parts). is_reserved (join p)) (sym same) ∙ free,
    )

-- Every target that the items name may be written.
abbrev pub Allowed : (Parts → Bool) → List Item → Type 0
Allowed is_link [] = Unit
Allowed is_link (nothing ∷ rest) = Allowed is_link rest
Allowed is_link (counts text path ∷ rest) = (is_allowed is_link path ≡ true) × Allowed is_link rest
Allowed is_link (name path ∷ rest) = (is_allowed is_link path ≡ true) × Allowed is_link rest
Allowed is_link (renames text ∷ []) = ⊥
Allowed is_link (renames text ∷ old ∷ []) = ⊥
Allowed is_link (renames text ∷ old ∷ new ∷ rest) =
    (is_allowed is_link (target_of old) ≡ true)
    × (is_allowed is_link (target_of new) ≡ true)
    × Allowed is_link rest

-- The same of the items that git lists. Where it lists none, as its numstat failed, nothing is
-- authorized.
abbrev pub ListedAllowed : (Parts → Bool) → Option (List Item) → Type 0
ListedAllowed is_link none = Unit
ListedAllowed is_link (some items) = Allowed is_link items

both : (a b : Bool) → (a && b) ≡ true → (a ≡ true) × (b ≡ true)
both a b h = ground arith

check_items-Allowed :
    (is_link : Parts → Bool) (items : List Item)
    → check_items is_link items ≡ true
    → Allowed is_link items
unfolding check_items
check_items-Allowed is_link [] h = tt
check_items-Allowed is_link (nothing ∷ rest) h = check_items-Allowed is_link rest h
check_items-Allowed is_link (counts text path ∷ rest) h =
    let (here, later) = both (is_allowed is_link path) (check_items is_link rest) h in
    (here, check_items-Allowed is_link rest later)
check_items-Allowed is_link (name path ∷ rest) h =
    let (here, later) = both (is_allowed is_link path) (check_items is_link rest) h in
    (here, check_items-Allowed is_link rest later)
check_items-Allowed is_link (renames text ∷ []) h = absurd cc
check_items-Allowed is_link (renames text ∷ old ∷ []) h = absurd cc
check_items-Allowed is_link (renames text ∷ old ∷ new ∷ rest) h =
    let (names, later) =
      both (is_allowed is_link (target_of old) && is_allowed is_link (target_of new))
        (check_items is_link rest) h in
    let (first, second) =
      both (is_allowed is_link (target_of old)) (is_allowed is_link (target_of new)) names in
    (first, second, check_items-Allowed is_link rest later)

listed-Allowed :
    (is_link : Parts → Bool) (o : Option (List Item))
    → targets_allowed is_link o ≡ true
    → ListedAllowed is_link o
listed-Allowed is_link none h = tt
listed-Allowed is_link (some items) h = check_items-Allowed is_link items h

patch-passed :
    (large allowed : Bool) (r : ℕ × Bool)
    → (if large then (1, false) else if not allowed then (1, false) else r).1 ≡ true
    → (large ≡ false) × (allowed ≡ true) × (r.1 ≡ true)
patch-passed large allowed r h = ground arith

after_check-passed :
    (g : Git) (c : Command) (code : ℕ)
    → (after_check g c code).1 ≡ true
    → (c ≡ git_apply) × (code ≡ 0)
after_check-passed g git_apply_check code h = absurd cc
after_check-passed g git_apply code h = (refl, passed (eqb code 0) refl h)
  where
    passed :
        (b : Bool)
        → eqb code 0 ≡ b
        → (if◌then◌else◌ {A = ℕ × Bool} b
            (exit_code g.apply_code g.apply_skips, true)
            (code, false)).1
          ≡ true
        → code ≡ 0
    passed true e h = ground arith
    passed false e h = absurd cc

-- Git is called to apply a patch only where the caller asked for that, the patch has at most two
-- million bytes, git's own check of it has passed, and, where git's numstat succeeded, every target
-- that it names may be written; where numstat failed, no target is authorized.
pub patch_requires :
    (is_link : Parts → Bool) (g : Git) (c : Command)
    → (patch is_link g c).1 ≡ true
    → (c ≡ git_apply)
      × (g.patch_size ≤ 2_000_000)
      × ListedAllowed is_link g.items
      × (exit_code g.check_code g.check_skips ≡ 0)
unfolding patch
patch_requires is_link g c applied =
    let (fits, allowed, ran) =
      patch-passed (ltb 2_000_000 g.patch_size) (targets_allowed is_link g.items) _ applied in
    let (asked, passed) = after_check-passed g c (exit_code g.check_code g.check_skips) ran in
    (asked, ground arith, listed-Allowed is_link g.items allowed, passed)
