-- ===== src/Brackets/Close.antt =====
-- clint.py, `CloseExpression`: what it does for `[` and `{`, and where it fails.
use dlmalloc.Prelude.{
  ℕ, ◌+◌, ◌-◌, ◌≡◌, refl, ap, List, [], ◌∷◌, none, some, pos, arith, length, drop, take, get_elem?,
}
use dlmalloc.Text.{Text, codes, count, rfind}
use dlmalloc.Brackets.{matching_punctuation, seek_even, chop, add_one, close_expression}

seek_even-even :
    (startchar endchar : Text) (lines : List Text) (line : Text) (linenum n : ℕ)
    → seek_even startchar endchar lines line linenum n n ≡ some (line, linenum, n, n)
unfolding seek_even
seek_even-even startchar endchar [] line linenum n = ground arith
seek_even-even startchar endchar (next ∷ lines) line linenum n = ground arith

take-all : {A : Type 0} (xs : List A) → take (length xs) xs ≡ xs
take-all [] = refl
take-all (x ∷ xs) = ap (λ t. x ∷ t) (take-all xs)

chop_once :
    (line : Text)
    → rfind line (codes ")") ≡ none
    → (rounds : ℕ) → rounds ≡ 1
    → add_one (chop rounds line (pos (length line))) ≡ pos 0
unfolding chop
chop_once line absent rounds one = rw (one, take-all line, absent) refl

-- CloseExpression looks back for `)` whatever bracket it is to close: on a line with as many `[`
-- as `]` (or `{` as `}`) and no `)`, for a `[` (or `{`), it returns the start of the line.
pub close_expression-no_paren :
    (elided : List Text) (linenum p : ℕ) (line : Text) (startchar endchar : ℕ)
    → get_elem? elided linenum ≡ some line
    → get_elem? line p ≡ some startchar
    → matching_punctuation startchar ≡ some endchar
    → count line (startchar ∷ []) ≡ count line (endchar ∷ [])
    → rfind line (codes ")") ≡ none
    → close_expression elided linenum p ≡ some (line, linenum, pos 0)
unfolding close_expression
close_expression-no_paren elided linenum p line startchar endchar at here m even absent =
    rw (close_expression, at, here, m, even)
      (rw
        (seek_even-even (startchar ∷ []) (endchar ∷ []) (drop (linenum + 1) elided) line linenum
          (count line (endchar ∷ [])))
        (ap (λ i. some (line, linenum, i))
          (chop_once line absent (count line (endchar ∷ []) + 1 - count line (endchar ∷ []))
            (omega arith))))
