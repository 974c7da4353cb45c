-- ===== src/Workspace/Names.antt =====
-- `valid_identity`, and the names that `reserve` tries.
use lean_fm.Common.{
  ℕ, zero, suc, ◌/◌, ◌%◌, String, Bool, true, false, not, ◌&&◌, ◌||◌, ltb, leb, eqb, if◌then◌else◌,
  ◌==◌, is_empty, str_len, all_chars, is_id_char, slice_to, ◌+s◌,
}
use Prim.Native.Char.{code}
use Prim.Native.String.{[], ◌∷◌}

-- `str.isalnum` of a character is an argument: Python's table of letters and digits.
unfoldable pub valid_identity : (ℕ → Bool) → String → Bool
valid_identity is_alnum s =
    ltb 0 (str_len s)
    && leb (str_len s) 64
    && all_chars (λ c. is_alnum c || eqb c b'-' || eqb c b'_') s
    && not (s == "leanfm-workspace")

-- `re.sub(r"[^A-Za-z0-9_-]+", "-", s)`, told whether the character before was replaced
unfoldable pub substitute : Bool → String → String
substitute replaced [] = []
substitute replaced (c ∷ s) =
    let kept = substitute false s in
    let skipped = substitute true s in
    if is_id_char (code c) then c ∷ kept else if replaced then skipped else "-" ∷ skipped

abbrev pub is_trimmed : ℕ → Bool
is_trimmed c = eqb c b'-' || eqb c b'_'

-- `s.lstrip("-_")`
unfoldable pub trim_start : String → String
trim_start [] = []
trim_start (c ∷ s) = let rest = trim_start s in if is_trimmed (code c) then rest else c ∷ s

-- `s.rstrip("-_")`
unfoldable pub trim_end : String → String
trim_end [] = []
trim_end (c ∷ s) =
    let rest = trim_end s in if is_trimmed (code c) && is_empty rest then [] else c ∷ rest

abbrev pub or_project : String → String
or_project s = if is_empty s then "Project" else s

unfoldable pub stem_of : String → String
unfolding substitute trim_start trim_end
stem_of name = or_project (trim_end (slice_to 56 (trim_end (trim_start (substitute false name)))))

abbrev pub digit : ℕ → String
digit zero = "0"
digit (suc zero) = "1"
digit (suc (suc zero)) = "2"
digit (suc (suc (suc zero))) = "3"
digit (suc (suc (suc (suc zero)))) = "4"
digit (suc (suc (suc (suc (suc zero))))) = "5"
digit (suc (suc (suc (suc (suc (suc zero)))))) = "6"
digit (suc (suc (suc (suc (suc (suc (suc zero))))))) = "7"
digit (suc (suc (suc (suc (suc (suc (suc (suc zero)))))))) = "8"
digit _ = "9"

-- The digits of a number, the fuel being as many as it has.
unfoldable pub decimal : ℕ → ℕ → String
decimal zero n = []
decimal (suc fuel) n =
    let front = decimal fuel (n / 10) in (if ltb n 10 then [] else front) +s digit (n % 10)

-- An ordinal is at most 10000.
unfoldable pub candidate : String → ℕ → String
unfolding decimal
candidate stem ordinal = if eqb ordinal 1 then stem else stem +s "-" +s decimal 5 ordinal
