-- ===== src/Driver/Returns.antt =====
-- clint.py, `ProcessFile`: lines that end in `\r\n`.
use dlmalloc.Prelude.{
  ℕ, ◌≡◌, Bool, true, false, List, [], ◌∷◌, ◌++◌, ◌==◌, nat_eq, text_eq, Option, none, some, ◌≢◌,
  All, if◌then◌else◌,
}
use dlmalloc.Text.{Text, codes}
use dlmalloc.Session.{Session, run_events}
use dlmalloc.Driver.{
  Machine, write, is_ignored, return_events, file_extension_of, process_file_data,
}

abbrev pub ends_in_return : Text → Bool
ends_in_return [] = false
ends_in_return (c ∷ []) = c == b'\r'
ends_in_return (c ∷ d ∷ s) = ends_in_return (d ∷ s)

abbrev pub NoReturns : List Text → Type 0
NoReturns [] = Unit
NoReturns (line ∷ lines) = (ends_in_return line ≡ false) × NoReturns lines

abbrev pub NoNewlines : List Text → Type 0
NoNewlines = All (λ line. All (λ x. x ≢ b'\n') line)

-- A text of these lines, with `\r\n` between them.
abbrev pub join_crlf : List Text → Text
join_crlf [] = []
join_crlf (line ∷ []) = line
join_crlf (line ∷ next ∷ lines) = (line ++ codes "\r") ++ b'\n' ∷ join_crlf (next ∷ lines)

abbrev has_more : List Text → Bool
has_more [] = false
has_more (line ∷ lines) = true

-- ProcessFile behind its loop over the lines.
abbrev lint_stripped : Machine → ℕ → Text → Session → List Text × Bool → Option Session
lint_stripped m fuel filename s (lines, carriage_return_found) =
    if is_ignored filename
    then some (
        write
          (dlmalloc.Report.color (codes "Ignoring " ++ filename ++ codes "; not a .c or .h file\n")
            [])
          s)
    else elim (process_file_data m fuel filename (file_extension_of filename) lines s) [
      | none ↦ none
      | some t ↦ run_events (return_events m filename carriage_return_found) t
    ]
