-- ===== src/Reset/Files.antt =====
-- The files of a directory tree, told apart from `inventory`, which collects them.
use lean_fm.Common.{
  String, Option, none, some, [], ◌∷◌, ◌++◌, ◌≡◌, ◌≢◌, refl, sym, ap, ◌∙◌, subst, ◌⊎◌, inl, inr,
  some-injective,
}
use lean_fm.Common.Table.{Table}
use mathlib.Core.List.{Memᴰ}
use mathlib.Core.List.Memᴰ
use lean_fm.Reset.Tree.{
  Content, Node, Nodes, link, file, directory, no_more, entry, child_path, both, files_of,
  files_below,
}

unfoldable mutual
  -- Whether a file stands at a path, in an entry of a given path.
  pub HasFile : (path : String) → Content → (at : String) → Node → Type 0
  HasFile path c at (link b) = ⊥
  HasFile path c at (file d) = (path ≡ at) × (c ≡ d)
  HasFile path c at (directory entries) = HasFileBelow path c at entries

  pub HasFileBelow : (path : String) → Content → (at : String) → Nodes → Type 0
  HasFileBelow path c at no_more = ⊥
  HasFileBelow path c at (entry name node rest) =
      HasFile path c (child_path at name) node ⊎ HasFileBelow path c at rest

-- A file of an account's directory that is not below its "projects".
unfoldable pub HasRecord : (path : String) → Content → Nodes → Type 0
unfolding HasFile
HasRecord path c no_more = ⊥
HasRecord path c (entry name node rest) =
    ((name ≢ "projects") × HasFile path c name node) ⊎ HasRecord path c rest

pub both-parts :
    (a b : Option (Table Content)) (files : Table Content)
    → both a b ≡ some files
    → (xs ys : Table Content) × (a ≡ some xs) × (b ≡ some ys) × (files ≡ xs ++ ys)
both-parts none b files e = absurd cc
both-parts (some xs) none files e = absurd cc
both-parts (some xs) (some ys) files e = (xs, ys, refl, refl, sym (some-injective e))

module _ (path : String) (c : Content) where
  abbrev pub Listed : Table Content → Type 0
  Listed files = Memᴰ (path, c) files

  -- What is listed of two parts, and what they have.
  pub append-Listed :
      {P Q : Type 0} {files : Table Content} (xs ys : Table Content)
      → files ≡ xs ++ ys
      → (P → Listed xs)
      → (Q → Listed ys)
      → P ⊎ Q
      → Listed files
  append-Listed xs ys e f g (inl p) = subst Listed (sym e) (Memᴰ.append_left ys (f p))
  append-Listed xs ys e f g (inr q) = subst Listed (sym e) (Memᴰ.append_right xs (g q))

  pub listed-split :
      {P Q : Type 0} {files : Table Content} (xs ys : Table Content)
      → files ≡ xs ++ ys
      → (Listed xs → P)
      → (Listed ys → Q)
      → Listed files
      → P ⊎ Q
  listed-split {P} {Q} xs ys e f g m = go (Memᴰ.append_cases xs (subst Listed e m))
    where
      go : Listed xs ⊎ Listed ys → P ⊎ Q
      go (inl l) = inl (f l)
      go (inr r) = inr (g r)

  pair_lem : (at : String) (d : Content) → (path ≡ at) × (c ≡ d) → Listed ((at, d) ∷ [])
  pair_lem at d (p, q) = Memᴰ.head (ap (λ (x : String). (x, c)) p ∙ ap (λ (y : Content). (at, y)) q)

  single_lem : (at : String) (d : Content) → Listed ((at, d) ∷ []) → (path ≡ at) × (c ≡ d)
  single_lem at d m = go (Memᴰ.cases_cons m)
    where
      go :
          (◌≡◌ {A = String × Content} (path, c) (at, d)) ⊎ Memᴰ {A = String × Content} (path, c) []
          → (path ≡ at) × (c ≡ d)
      go (inl e) = (ap (λ (x : String × Content). x.0) e, ap (λ (x : String × Content). x.1) e)
      go (inr m) = elim m [ ]

  mutual
    unfolding files_of HasFile

    pub files-Listed :
        (at : String) (node : Node) (files : Table Content)
        → files_of at node ≡ some files
        → HasFile path c at node
        → Listed files
    files-Listed at (link b) files e h = absurd cc
    files-Listed at (file d) files e h = subst Listed (some-injective e) (pair_lem at d h)
    files-Listed at (directory entries) files e h = below-Listed at entries files e h

    pub below-Listed :
        (at : String) (entries : Nodes) (files : Table Content)
        → files_below at entries ≡ some files
        → HasFileBelow path c at entries
        → Listed files
    below-Listed at no_more files e h = absurd h
    below-Listed at (entry name node rest) files e h =
        let (xs, ys, first, later, whole) =
          both-parts (files_of (child_path at name) node) (files_below at rest) files e in
        append-Listed xs ys whole (files-Listed (child_path at name) node xs first)
          (below-Listed at rest ys later) h

  mutual
    unfolding files_of HasFile

    pub files-HasFile :
        (at : String) (node : Node) (files : Table Content)
        → files_of at node ≡ some files
        → Listed files
        → HasFile path c at node
    files-HasFile at (link b) files e m = absurd cc
    files-HasFile at (file d) files e m = single_lem at d (subst Listed (sym (some-injective e)) m)
    files-HasFile at (directory entries) files e m = below-HasFile at entries files e m

    pub below-HasFile :
        (at : String) (entries : Nodes) (files : Table Content)
        → files_below at entries ≡ some files
        → Listed files
        → HasFileBelow path c at entries
    below-HasFile at no_more files e m = nothing (subst Listed (sym (some-injective e)) m)
      where
        nothing : Listed [] → ⊥
        nothing m = elim m [ ]
    below-HasFile at (entry name node rest) files e m =
        let (xs, ys, first, later, whole) =
          both-parts (files_of (child_path at name) node) (files_below at rest) files e in
        listed-split xs ys whole (files-HasFile (child_path at name) node xs first)
          (below-HasFile at rest ys later) m
