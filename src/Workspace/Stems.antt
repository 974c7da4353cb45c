-- ===== src/Workspace/Stems.antt =====
-- The names that `reserve` derives from a caller's text.
use lean_fm.Common.{
  ℕ, zero, suc, ◌≤◌, ◌<◌, String, ◌≡◌, refl, Bool, true, false, not, ◌||◌, eqb, arith,
  if◌then◌else◌, ◌==◌, str_len, all_chars, is_id_char, slice_to, is_letter, is_digit, Bool-cases,
  inl, inr,
}
use Prim.Native.Char.{code}
use Prim.Native.String.{[], ◌∷◌}
use lean_fm.Workspace.Names.{valid_identity, substitute, trim_start, trim_end, or_project, stem_of}

substitute-id : (b : Bool) (s : String) → all_chars is_id_char (substitute b s) ≡ true
unfolding substitute
substitute-id b [] = refl
substitute-id b (c ∷ s) = elim (Bool-cases (is_id_char (code c))) [
  | inl kept ↦ rw (kept, kept) (substitute-id false s)
  | inr out ↦ rw out (skipped b (substitute-id true s))
]
  where
    skipped :
        (r : Bool)
        → all_chars is_id_char (substitute true s) ≡ true
        → all_chars is_id_char (if r then substitute true s else "-" ∷ substitute true s) ≡ true
    skipped true h = h
    skipped false h = h

module _ (p : ℕ → Bool) where
  trim_start-all : (s : String) → all_chars p s ≡ true → all_chars p (trim_start s) ≡ true
  unfolding trim_start
  trim_start-all [] h = refl
  trim_start-all (c ∷ s) h = ground (arith, trim_start-all s)

  trim_end-all : (s : String) → all_chars p s ≡ true → all_chars p (trim_end s) ≡ true
  unfolding trim_end
  trim_end-all [] h = refl
  trim_end-all (c ∷ s) h = ground (arith, trim_end-all s)

  slice_to-all : (n : ℕ) (s : String) → all_chars p s ≡ true → all_chars p (slice_to n s) ≡ true
  slice_to-all zero s h = refl
  slice_to-all (suc n) [] h = refl
  slice_to-all (suc n) (c ∷ s) h = ground (arith, slice_to-all n s)

  all_chars-imp :
      (q : ℕ → Bool) (s : String)
      → ((c : ℕ) → p c ≡ true → q c ≡ true)
      → all_chars p s ≡ true
      → all_chars q s ≡ true
  all_chars-imp q [] f h = refl
  all_chars-imp q (c ∷ s) f h = ground (arith, f (code c), all_chars-imp q s f)

length-trim_end : (s : String) → str_len (trim_end s) ≤ str_len s
unfolding trim_end
length-trim_end [] = omega arith
length-trim_end (c ∷ s) = ground (arith, length-trim_end s)

length-slice_to : (n : ℕ) (s : String) → str_len (slice_to n s) ≤ n
length-slice_to zero s = omega arith
length-slice_to (suc n) [] = omega arith
length-slice_to (suc n) (c ∷ s) = omega (arith, length-slice_to n s)

record IsStem (s : String) : Type 0 where
  nonempty : 0 < str_len s
  bounded : str_len s ≤ 56
  plain : all_chars is_id_char s ≡ true

or_project-IsStem :
    (s : String) → str_len s ≤ 56 → all_chars is_id_char s ≡ true → IsStem (or_project s)
or_project-IsStem [] h k = record { nonempty = omega arith; bounded = omega arith; plain = refl }
or_project-IsStem (c ∷ s) h k = record { nonempty = omega arith; bounded = h; plain = k }

stem_of-IsStem : (name : String) → IsStem (stem_of name)
unfolding stem_of
stem_of-IsStem name =
    let inner = trim_end (trim_start (substitute false name)) in
    or_project-IsStem (trim_end (slice_to 56 inner))
      (omega (arith, length-trim_end (slice_to 56 inner), length-slice_to 56 inner))
      (trim_end-all is_id_char (slice_to 56 inner) (
        slice_to-all is_id_char 56 inner (
          trim_end-all is_id_char (trim_start (substitute false name))
            (trim_start-all is_id_char (substitute false name) (substitute-id false name)))))

-- Whatever text a caller gives, the name derived from it has between 1 and 56 characters, all of
-- them ASCII letters, digits, dashes and underscores, and is a valid identity unless it is the
-- workspace's own name; here `str.isalnum` need only hold of the ASCII letters and digits.
pub stem_bounds :
    (is_alnum : ℕ → Bool) (name : String)
    → ((c : ℕ) → (is_letter c || is_digit c) ≡ true → is_alnum c ≡ true)
    → (0 < str_len (stem_of name))
      × (str_len (stem_of name) ≤ 56)
      × (all_chars is_id_char (stem_of name) ≡ true)
      × (valid_identity is_alnum (stem_of name) ≡ not (stem_of name == "leanfm-workspace"))
unfolding valid_identity
stem_bounds is_alnum name ascii =
    let s = stem_of-IsStem name in
    let all_good =
      all_chars-imp is_id_char (λ c. is_alnum c || eqb c b'-' || eqb c b'_') (stem_of name)
        (λ c h. ground (arith, ascii c)) s.plain in
    (s.nonempty, s.bounded, s.plain, ground (arith, s.nonempty, s.bounded, all_good))
