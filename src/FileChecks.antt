-- ===== src/FileChecks.antt =====
-- clint.py: the checks that read the lines of a whole file: `CheckForCopyright`,
-- `CheckForHeaderGuard`, `CheckForUnicodeReplacementCharacters` and `CheckForNewlineAtEOF`.
pub mod HeaderGuard
use dlmalloc.Prelude.{
  ℕ, ◌+◌, ◌-◌, ◌||◌, Bool, true, false, not, String, List, [], ◌∷◌, ◌++◌, Option, none, some, ◌==◌,
  text_eq, option_eq, ltb, leb, if◌then◌else◌, length, take, drop, get_or, get_elem?, sub_ℕ,
}
use dlmalloc.Text.{Text, codes, starts_with, split_space, occurs}
use dlmalloc.Regex.{Regex, ◌⨾◌, empty, found, is_nil}
use dlmalloc.Regex.Patterns.{one_of}
use dlmalloc.Report.{Event, error, report, when}
use dlmalloc.Nolint.{parse_nolint_suppressions}

-- A word in lower case, matched with the flag re.I.
abbrev any_case : Text → Regex
any_case [] = empty
any_case (c ∷ s) = one_of ((c, c) ∷ (c - 32, c - 32) ∷ []) ⨾ any_case s

-- Whether some line has a copyright notice; the loop of CheckForCopyright ends at the first.
unfoldable pub has_copyright : List Text → Bool
has_copyright [] = false
has_copyright (line ∷ lines) = found (any_case (codes "copyright")) line || has_copyright lines

-- `CheckForCopyright`, on the lines from 1 to 10
unfoldable pub check_for_copyright : Text → List Text → List Event
unfolding has_copyright
check_for_copyright filename lines = when (not (has_copyright (take 10 (drop 1 lines)))) (
    error filename 0 (codes "legal/copyright") 5 (
      codes "No copyright message found.  "
      ++ codes "You should have a line: \"Copyright [year] <Copyright Owner>\"")
    ∷ [])

-- The variables of the loop in CheckForHeaderGuard.
pub record Guard : Type 0 where
  pub ifndef : Option Text
  pub define : Option Text
  pub endif : Option Text
  pub endif_linenum : ℕ

-- The word behind the directive, in the fields of a line.
unfoldable pub directive_arg : String → List Text → Option Text
directive_arg name [] = none
directive_arg name (a ∷ []) = none
directive_arg name (a ∷ b ∷ fields) = if a == codes name then some b else none

abbrev pub or_else : Option Text → Option Text → Option Text
or_else none new = new
or_else (some t) new = some t

-- The body of the loop.
unfoldable pub read_guard : ℕ → Text → Guard → Guard
unfolding directive_arg split_space
read_guard linenum line g =
    let linesplit = split_space line in
    let names = record g {
      ifndef = or_else g.ifndef (directive_arg "#ifndef" linesplit);
      define = or_else g.define (directive_arg "#define" linesplit);
    } in
    if starts_with line (codes "#endif")
    then record names { endif = some line; endif_linenum = linenum }
    else names

unfoldable pub scan_guard : ℕ → List Text → Guard → Guard
scan_guard linenum [] g = g
scan_guard linenum (line ∷ lines) g = scan_guard (linenum + 1) lines (read_guard linenum line g)

abbrev pub no_guard : Guard
no_guard = record { ifndef = none; define = none; endif = none; endif_linenum = 0 }

abbrev pub endif_line : Text → Text
endif_line cppvar = codes "#endif  // " ++ cppvar

abbrev pub guard_error : Text → ℕ → ℕ → Text → Event
guard_error filename linenum level message =
    error filename linenum (codes "build/header_guard") level message

-- The reports once `cppvar` is set.
unfoldable pub guard_events : Text → List Text → Guard → Text → List Event
guard_events filename lines g cppvar =
    if g.define == none
    then guard_error filename 0 5
        (codes "No #define header guard found, suggested CPP variable is: " ++ cppvar)
      ∷ []
    else if not (g.define == some cppvar)
    then guard_error filename 0 5
        (codes "#ifndef and #define don't match, suggested CPP variable is: " ++ cppvar)
      ∷ []
    else if not (g.endif == some (endif_line cppvar))
    then parse_nolint_suppressions filename (get_or lines g.endif_linenum []) g.endif_linenum
      ++ guard_error filename g.endif_linenum
          (if not (g.endif == some (endif_line (cppvar ++ codes "_"))) then 5 else 0)
          (codes "#endif line should be \"" ++ endif_line cppvar ++ codes "\"")
        ∷ []
    else []

-- `CheckForHeaderGuard`; `none` is the UnboundLocalError for `cppvar`, which has no value before
-- `ifndef` has one. As the value is that of `ifndef`, the branch on their difference is dead.
unfoldable pub check_for_header_guard : Text → List Text → Option (List Event)
check_for_header_guard filename lines =
    let g = scan_guard 0 lines no_guard in
    elim g.ifndef [ none ↦ none | some cppvar ↦ some (guard_events filename lines g cppvar) ]

-- `CheckForUnicodeReplacementCharacters`, from a line on
unfoldable pub check_replacements : Text → ℕ → List Text → List Event
check_replacements filename linenum [] = []
check_replacements filename linenum (line ∷ lines) =
    when (occurs (0xFFFD ∷ []) line) (
      error filename linenum (codes "readability/utf8") 5
        (codes "Line contains invalid UTF-8 (or Unicode replacement character).")
      ∷ [])
    ++ check_replacements filename (linenum + 1) lines

unfoldable pub check_for_unicode_replacement_characters : Text → List Text → List Event
unfolding check_replacements
check_for_unicode_replacement_characters filename lines = check_replacements filename 0 lines

-- `CheckForNewlineAtEOF`
unfoldable pub check_for_newline_at_eof : Text → List Text → List Event
check_for_newline_at_eof filename lines =
    when (ltb (length lines) 3 || not (is_nil (get_or lines (length lines - 2) []))) (
      report (record {
        filename = filename;
        linenum = sub_ℕ (length lines) 2;
        category = codes "whitespace/ending_newline";
        confidence = 5;
        message = codes "Could not find a newline character at the end of the file.";
      })
      ∷ [])
