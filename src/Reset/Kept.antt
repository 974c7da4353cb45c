-- ===== src/Reset/Kept.antt =====
-- The records that a plan keeps of an account, and a copy in the vault, as files.
use lean_fm.Common.{
  String, Bool, true, false, ◌&&◌, Option, none, some, [], ◌∷◌, ◌≡◌, ◌≢◌, refl, sym, ap, ◌∙◌, subst,
  ◌⊎◌, inl, inr, if◌then◌else◌, ◌==◌, eqb, eq_iff, eqb_iff, some-injective, arith,
}
use lean_fm.Common.Table.{Table, lookup}
use mathlib.Core.List.{Memᴰ}
use mathlib.Core.List.Memᴰ
use lean_fm.Reset.Tree.{
  Content, Node, Nodes, link, file, directory, no_more, entry, both, files_of, files_below,
  inventory, same_content, holds, same_files,
}
use lean_fm.Reset.Plan.{records_of, has_records}
use lean_fm.Reset.Files.{
  HasFile, HasFileBelow, HasRecord, both-parts, append-Listed, listed-split, files-Listed,
  files-HasFile, below-Listed, below-HasFile,
}

-- The files of a directory of the vault.
unfoldable pub HasCopy : (path : String) → Content → Node → Type 0
HasCopy path c (link b) = ⊥
HasCopy path c (file d) = ⊥
HasCopy path c (directory entries) = HasFileBelow path c "" entries

module _ (path : String) (c : Content) where
  pub records-Listed :
      (entries : Nodes) (records : Table Content)
      → records_of entries ≡ some records
      → HasRecord path c entries
      → Memᴰ (path, c) records
  unfolding records_of HasRecord
  records-Listed no_more records e h = absurd h
  records-Listed (entry name node rest) records e h =
      go (name == "projects") refl (records-Listed rest) e h
    where
      go :
          (b : Bool)
          → (name == "projects") ≡ b
          → ((records : Table Content)
              → records_of rest ≡ some records
              → HasRecord path c rest
              → Memᴰ (path, c) records)
          → (if b then records_of rest else both (files_of name node) (records_of rest))
            ≡ some records
          → HasRecord path c (entry name node rest)
          → Memᴰ (path, c) records
      go true same later e (inl h) = absurd (h.0 ((eq_iff name "projects").0 same))
      go true same later e (inr h) = later records e h
      go false other later e h =
          let (xs, ys, first, others, whole) =
            both-parts (files_of name node) (records_of rest) records e in
          append-Listed path c xs ys whole
            (λ (k : (name ≢ "projects") × HasFile path c name node).
              files-Listed path c name node xs first k.1)
            (later ys others) h

  pub records-HasRecord :
      (entries : Nodes) (records : Table Content)
      → records_of entries ≡ some records
      → Memᴰ (path, c) records
      → HasRecord path c entries
  unfolding records_of HasRecord
  records-HasRecord no_more records e m =
      nothing (subst (Memᴰ (path, c)) (sym (some-injective e)) m)
    where
      nothing : Memᴰ {A = String × Content} (path, c) [] → ⊥
      nothing k = elim k [ ]
  records-HasRecord (entry name node rest) records e m =
      go (name == "projects") refl (records-HasRecord rest) e
    where
      differs_lem : (name == "projects") ≡ false → name ≢ "projects"
      differs_lem other same = let text = (eq_iff name "projects").1 same in cc

      go :
          (b : Bool)
          → (name == "projects") ≡ b
          → ((records : Table Content)
              → records_of rest ≡ some records
              → Memᴰ (path, c) records
              → HasRecord path c rest)
          → (if b then records_of rest else both (files_of name node) (records_of rest))
            ≡ some records
          → HasRecord path c (entry name node rest)
      go true same later e = inr (later records e m)
      go false other later e =
          let (xs, ys, first, others, whole) =
            both-parts (files_of name node) (records_of rest) records e in
          listed-split path c xs ys whole
            (λ k. (differs_lem other, files-HasFile path c name node xs first k)) (later ys others)
            m

  content-eq : (d e : Content) → same_content d e ≡ true → d ≡ e
  content-eq (d, m) (e, n) h =
      let (text, mode) = parts (d == e) (eqb m n) h in
      ap (λ (x : String). (x, m)) ((eq_iff d e).0 text) ∙ ap (λ k. (e, k)) ((eqb_iff m n).0 mode)
    where
      parts : (a b : Bool) → (a && b) ≡ true → (a ≡ true) × (b ≡ true)
      parts a b k = ground arith

  lookup-Listed : (table : Table Content) → lookup path table ≡ some c → Memᴰ (path, c) table
  unfolding lookup
  lookup-Listed [] h = absurd cc
  lookup-Listed ((name, d) ∷ table) h = go (name == path) refl h (lookup-Listed table)
    where
      go :
          (b : Bool)
          → (name == path) ≡ b
          → (if b then some d else lookup path table) ≡ some c
          → (lookup path table ≡ some c → Memᴰ (path, c) table)
          → Memᴰ (path, c) ((name, d) ∷ table)
      go true same h later = Memᴰ.head (
          ap (λ (x : String). (x, c)) (sym ((eq_iff name path).0 same))
          ∙ ap (λ (y : Content). (name, y)) (sym (some-injective h)))
      go false other h later = Memᴰ.tail (later h)

  -- A table that has the entries of another lists them.
  holds-Listed :
      (table other : Table Content)
      → holds table other ≡ true
      → Memᴰ (path, c) other
      → Memᴰ (path, c) table
  unfolding holds
  holds-Listed table [] h m = elim m [ ]
  holds-Listed table ((name, d) ∷ other) h m =
      go (lookup name table) refl h (Memᴰ.cases_cons m) (holds-Listed table other)
    where
      both_lem : (a b : Bool) → (a && b) ≡ true → (a ≡ true) × (b ≡ true)
      both_lem a b k = ground arith

      go :
          (o : Option Content)
          → lookup name table ≡ o
          → elim o [ none ↦ false | some e ↦ same_content e d && holds table other ] ≡ true
          → (◌≡◌ {A = String × Content} (path, c) (name, d)) ⊎ Memᴰ (path, c) other
          → (holds table other ≡ true → Memᴰ (path, c) other → Memᴰ (path, c) table)
          → Memᴰ (path, c) table
      go none f h k later = absurd cc
      go (some e) f h (inr k) later = later (both_lem (same_content e d) (holds table other) h).1 k
      go (some e) f h (inl k) later =
          let same = content-eq e d (both_lem (same_content e d) (holds table other) h).0 in
          lookup-Listed table (
            ap (λ (x : String × Content). lookup x.0 table) k
            ∙ f
            ∙ ap (λ (y : Content). some y) (same ∙ sym (ap (λ (x : String × Content). x.1) k)))

  -- A copy that has exactly the records has each as a file, and no other file.
  pub copy_lem :
      (node : Node) (records : Table Content)
      → has_records node records ≡ true
      → (Memᴰ (path, c) records → HasCopy path c node)
        × (HasCopy path c node → Memᴰ (path, c) records)
  unfolding HasCopy inventory same_files
  copy_lem (link b) records h = absurd cc
  copy_lem (file d) records h = (
    λ m. elim (holds-Listed [] records (none_lem (holds [] records) (holds records []) h) m) [ ],
    λ k. absurd k,
  )
    where
      none_lem : (a b : Bool) → (a && b) ≡ true → a ≡ true
      none_lem a b k = ground arith
  copy_lem (directory entries) records h = go (files_below "" entries) refl h
    where
      both_lem : (a b : Bool) → (a && b) ≡ true → (a ≡ true) × (b ≡ true)
      both_lem a b k = ground arith

      go :
          (o : Option (Table Content))
          → files_below "" entries ≡ o
          → elim o [ none ↦ false | some files ↦ holds files records && holds records files ] ≡ true
          → (Memᴰ (path, c) records → HasFileBelow path c "" entries)
            × (HasFileBelow path c "" entries → Memᴰ (path, c) records)
      go none f h = absurd cc
      go (some files) f h =
          let (there, back) = both_lem (holds files records) (holds records files) h in
          (
            λ m. below-HasFile path c "" entries files f (holds-Listed files records there m),
            λ k. holds-Listed records files back (below-Listed path c "" entries files f k),
          )
