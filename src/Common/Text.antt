-- ===== src/Common/Text.antt =====
-- Texts: the classes of characters that the program's patterns name, and prefixes.
use Prim.Native.Nat.{ℕ, zero, suc, ◌-◌}
use Prim.Native.Char.{Char, code}
use Prim.Native.String.{String, [], ◌∷◌}
use mathlib.Core.Bool.{Bool, true, false, ◌&&◌, ◌||◌}
use mathlib.Core.Option.{Option, none, some}
use mathlib.Core.List.{List, [], ◌∷◌}
use lean_fm.Common.Tests.{leb, eqb, if◌then◌else◌}
pub use text.Mathlib.Text.{◌==◌}

-- the number of characters, Python's `len`
abbrev pub str_len : String → ℕ
str_len [] = 0
str_len (c ∷ s) = suc (str_len s)

-- `all(p(c) for c in s)`
abbrev pub all_chars : (ℕ → Bool) → String → Bool
all_chars p [] = true
all_chars p (c ∷ s) = p (code c) && all_chars p s

-- `any(p(c) for c in s)`
abbrev pub any_char : (ℕ → Bool) → String → Bool
any_char p [] = false
any_char p (c ∷ s) = p (code c) || any_char p s

-- `s.startswith(p)`
abbrev pub starts_with : String → String → Bool
starts_with s [] = true
starts_with [] (d ∷ p) = false
starts_with (c ∷ s) (d ∷ p) = eqb (code c) (code d) && starts_with s p

-- `s[:n]`
abbrev pub slice_to : ℕ → String → String
slice_to zero s = []
slice_to (suc n) [] = []
slice_to (suc n) (c ∷ s) = c ∷ slice_to n s

-- `not s`
abbrev pub is_empty : String → Bool
is_empty [] = true
is_empty (c ∷ s) = false

-- `s + t`
infixr 60 ◌+s◌
abbrev pub ◌+s◌ : String → String → String
[] +s t = t
(c ∷ s) +s t = c ∷ (s +s t)

abbrev pub is_digit : ℕ → Bool
is_digit c = leb b'0' c && leb c b'9'

abbrev pub is_letter : ℕ → Bool
is_letter c = leb b'A' c && leb c b'Z' || leb b'a' c && leb c b'z'

-- [A-Za-z0-9_-]
abbrev pub is_id_char : ℕ → Bool
is_id_char c = is_letter c || is_digit c || eqb c b'_' || eqb c b'-'

-- [0-9a-f]
abbrev pub is_hex : ℕ → Bool
is_hex c = is_digit c || leb b'a' c && leb c b'f'

-- `s[n:]`
abbrev pub slice_from : ℕ → String → String
slice_from zero s = s
slice_from (suc n) [] = []
slice_from (suc n) (c ∷ s) = slice_from n s

-- `s[-n:]`
abbrev pub slice_last : ℕ → String → String
slice_last n s = slice_from (str_len s - n) s

-- `s[:-n]`
abbrev pub slice_but_last : ℕ → String → String
slice_but_last n s = slice_to (str_len s - n) s

-- `s.endswith(p)`
abbrev pub ends_with : String → String → Bool
ends_with s p = slice_last (str_len p) s == p

-- `int(s)` of a text of one character, none where it raises
abbrev pub digit : String → Option ℕ
digit [] = none
digit (c ∷ []) = if is_digit (code c) then some (code c - b'0') else none
digit (c ∷ d ∷ s) = none

abbrev first_piece : Char → List String → List String
first_piece c [] = (c ∷ []) ∷ []
first_piece c (piece ∷ pieces) = (c ∷ piece) ∷ pieces

-- `s.split(sep)`, of a separator of one character
unfoldable pub split : ℕ → String → List String
split sep [] = [] ∷ []
split sep (c ∷ s) =
    let rest = split sep s in if eqb (code c) sep then [] ∷ rest else first_piece c rest
