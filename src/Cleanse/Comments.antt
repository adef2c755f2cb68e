-- ===== src/Cleanse/Comments.antt =====
-- clint.py, `RemoveMultiLineComments`: the loop ends, and what it leaves.
use dlmalloc.Prelude.{
  ℕ, ◌+◌, ◌<◌, true, false, List, [], ◌∷◌, ◌++◌, Option, some, ◌≡◌, length, replicate,
}
use dlmalloc.Text.{Text, codes}
use dlmalloc.Report.{Event, error}
use dlmalloc.Cleanse.{opens_comment, closes_comment, dummy, remove_from}
use dlmalloc.Cleanse.Lines.{Fails}

-- The report of a comment with no end that starts on line `ix`, counted from 0.
abbrev pub no_end : Text → ℕ → Event
no_end filename ix =
    error filename (ix + 1) (codes "readability/multiline_comment") 5
      (codes "Could not find end of multi-line comment")

-- What becomes of lines that stand outside of comments, the first of them at place `n`: a line
-- that opens no comment stays; from one that opens a comment up to the next line that closes one,
-- itself perhaps, the lines become dummies; and if no line closes it, all lines stay and the
-- comment is reported.
pub data Cleared (filename : Text) : ℕ → List Text → List Text → List Event → Type 0 where
  finished : (n : ℕ) → Cleared filename n [] [] []
  keep :
      (n : ℕ) (line : Text) (lines out : List Text) (events : List Event)
      → opens_comment line ≡ false
      → Cleared filename (n + 1) lines out events
      → Cleared filename n (line ∷ lines) (line ∷ out) events
  clear :
      (n : ℕ) (line : Text) (lines inner : List Text) (last : Text) (rest out : List Text)
      (events : List Event)
      → opens_comment line ≡ true
      → line ∷ lines ≡ inner ++ last ∷ rest
      → Fails closes_comment inner
      → closes_comment last ≡ true
      → Cleared filename (n + length inner + 1) rest out events
      → Cleared filename n (line ∷ lines) (replicate (length inner + 1) dummy ++ out) events
  unclosed :
      (n : ℕ) (line : Text) (lines : List Text)
      → opens_comment line ≡ true
      → Fails closes_comment (line ∷ lines)
      → Cleared filename n (line ∷ lines) (line ∷ lines) (no_end filename n ∷ [])

-- The lines behind `pre` are cleared.
abbrev Ends : Text → List Text → List Text → Option (List Text × List Event) → Type 0
Ends filename pre rest r =
    (out : List Text) × (events : List Event) × (r ≡ some (pre ++ out, events))
    × Cleared filename (length pre) rest out events

-- What the induction on the fuel gives.
abbrev Later : ℕ → Text → Type 0
Later fuel filename =
    (pre rest : List Text)
    → length rest < fuel
    → Ends filename pre rest (remove_from fuel filename (pre ++ rest) (length pre))
