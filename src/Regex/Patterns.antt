-- ===== src/Regex/Patterns.antt =====
-- Notation for patterns, in the order of the pattern texts of clint.py.
use Prim.Native.Char.{code}
use dlmalloc.Prelude.{ℕ, zero, suc, ◌-◌, String, true, false, List, [], ◌∷◌}
use dlmalloc.Regex.{Regex, empty, char, ◌⨾◌, ◌⊕◌, star, word}

-- The characters of a literal, each as a range of its own.
abbrev pub singles : String → List (ℕ × ℕ)
singles String.[] = []
singles (String.◌∷◌ c s) = (code c, code c) ∷ singles s

-- `[...]` and `[^...]`
abbrev pub one_of : List (ℕ × ℕ) → Regex
one_of ranges = char (record { negated = false; ranges = ranges })

abbrev pub none_of : List (ℕ × ℕ) → Regex
none_of ranges = char (record { negated = true; ranges = ranges })

-- `\s` and `\d` with no UNICODE flag
abbrev pub spaces : List (ℕ × ℕ)
spaces = (9, 13) ∷ (32, 32) ∷ []

abbrev pub digits : List (ℕ × ℕ)
digits = (b'0', b'9') ∷ []

abbrev pub words : List (ℕ × ℕ)
words = word.ranges

abbrev pub space : Regex
space = one_of spaces

-- `.` with no DOTALL flag
abbrev pub dot : Regex
dot = none_of (singles "\n")

abbrev pub lit : String → Regex
lit String.[] = empty
lit (String.◌∷◌ c s) = one_of ((code c, code c) ∷ []) ⨾ lit s

abbrev pub plus : Regex → Regex
plus p = p ⨾ star p

abbrev pub opt : Regex → Regex
opt p = p ⊕ empty

-- `p{n}` and `p{0,n}`
abbrev pub times : ℕ → Regex → Regex
times zero p = empty
times (suc n) p = p ⨾ times n p

abbrev pub at_most : ℕ → Regex → Regex
at_most zero p = empty
at_most (suc n) p = opt (p ⨾ at_most n p)

-- Letters in lower case, matched with the flag re.I.
abbrev pub lit_ci : String → Regex
lit_ci String.[] = empty
lit_ci (String.◌∷◌ c s) = one_of ((code c, code c) ∷ (code c - 32, code c - 32) ∷ []) ⨾ lit_ci s

-- A text that is computed, such as `re.escape(name)`.
abbrev pub literally : List ℕ → Regex
literally [] = empty
literally (c ∷ s) = one_of ((c, c) ∷ []) ⨾ literally s
