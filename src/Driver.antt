-- ===== src/Driver.antt =====
-- clint.py: `ProcessFile` and `main`, which pass no extra checks; the child Lines has the rest.
-- `none` is an exception that nothing catches, or a loop that does not end with this much fuel.
pub mod Classes
pub mod Returns
pub mod Status
pub mod Main
pub mod Lines
use dlmalloc.Prelude.{
  ℕ, zero, suc, ◌+◌, Bool, true, false, not, ◌&&◌, ◌||◌, List, [], ◌∷◌, ◌++◌, Option, none, some, ℤ,
  pos, ◌==◌, text_eq, nat_eq, if◌then◌else◌, length, get_or, drop, ltb,
}
use dlmalloc.Text.{Text, codes, ends_with, rfind, split}
use dlmalloc.Unicode.{Unicode}
use dlmalloc.Report.{Event, error, when, color, warning}
use dlmalloc.LintState.{LintState, set_verbose_level, reset_error_counts, print_error_counts}
use dlmalloc.Nolint.{parse_nolint_suppressions, reset_nolint_suppressions}
use dlmalloc.Session.{Session, run_events}
use dlmalloc.FunctionState.{FunctionState, check_for_function_lengths}
use dlmalloc.IncludeState.{IncludeState}
use dlmalloc.Classes.{ClassInfo, check_finished}
use dlmalloc.Classes.Constructs.{check_for_non_standard_constructs}
use dlmalloc.Cleanse.{CleansedLines, cleansed_lines, remove_multi_line_comments}
use dlmalloc.FileNames.{Paths}
use dlmalloc.FileChecks.{
  check_for_copyright, check_for_header_guard, check_for_unicode_replacement_characters,
  check_for_newline_at_eof,
}
use dlmalloc.LineChecks.{
  check_for_multiline_comments_and_strings, check_posix_threading, check_invalid_increment,
  check_make_pair_uses_deduction,
}
use dlmalloc.Style.{Widths, check_style}
use dlmalloc.Language.{check_language}
use dlmalloc.WhatYouUse.{Surroundings, check_for_include_what_you_use}
use dlmalloc.Options.{Result, stop, done, parse_arguments}
use dlmalloc.Driver.Lines.{
  Machine, LineState, fresh, check_pitfalls, process_line, process_lines, with_markers,
  header_guard_events, check_lines, file_events, run_all, process_file_data,
}

-- `rstrip('\r')`, if the line ends so
unfoldable pub drop_returns : Text → Text
drop_returns [] = []
drop_returns (c ∷ s) =
    let rest = drop_returns s in if c == b'\r' && rest == [] then [] else c ∷ rest

-- The lines without the `\r` at their ends, and whether there was one.
unfoldable pub strip_returns : List Text → List Text × Bool
strip_returns [] = ([], false)
strip_returns (line ∷ lines) =
    let (rest, carriage_return_found) = strip_returns lines in
    (drop_returns line ∷ rest, ends_with line (codes "\r") || carriage_return_found)

-- What follows the last dot; all of a name with no dot.
unfoldable pub file_extension_of : Text → Text
file_extension_of filename = elim (rfind filename (codes ".")) [
  | none ↦ filename
  | some i ↦ drop (i + 1) filename
]

abbrev pub is_ignored : Text → Bool
is_ignored filename =
    let file_extension = file_extension_of filename in
    not (filename == codes "-")
    && not (file_extension == codes "c")
    && not (file_extension == codes "h")
    && not (file_extension == codes "cpp")

abbrev pub write : Text → Session → Session
write text s = record s { stderr = s.stderr ++ text ∷ [] }

abbrev pub return_events : Machine → Text → Bool → List Event
return_events m filename carriage_return_found =
    when (carriage_return_found && not (m.linesep == codes "\r\n")) (
      error filename 0 (codes "whitespace/newline") 1
        (codes "One or more unexpected \\r (^M) found;better to use only a \\n")
      ∷ [])

-- The branches of ProcessFile on the name of a file that was read.
unfoldable pub lint_text : Machine → ℕ → Text → Text → Session → Option Session
lint_text m fuel filename text s =
    let (lines, carriage_return_found) = strip_returns (split b'\n' text) in
    if is_ignored filename
    then some
        (write (color (codes "Ignoring " ++ filename ++ codes "; not a .c or .h file\n") []) s)
    else elim (process_file_data m fuel filename (file_extension_of filename) lines s) [
      | none ↦ none
      | some t ↦ run_events (return_events m filename carriage_return_found) t
    ]

-- `ProcessFile`, behind the call of `_SetVerboseLevel`
unfoldable pub lint_file : Machine → ℕ → Text → Session → Option Session
lint_file m fuel filename s = elim (m.read_file filename) [
  | none ↦ some (
      write
        (color (codes "Skipping input '" ++ filename ++ codes "': Can't open for reading\n")
          warning)
        s)
  | some text ↦ elim (lint_text m fuel filename text s) [
    | none ↦ none
    | some t ↦ some (write (color (codes "Done processing " ++ filename ++ codes "\n") []) t)
  ]
]

-- `ProcessFile`
unfoldable pub process_file : Machine → ℕ → Text → ℤ → Session → Option Session
process_file m fuel filename vlevel s =
    lint_file m fuel filename (record s { lint = (set_verbose_level vlevel s.lint).0 })

unfoldable pub process_files : Machine → ℕ → List Text → Session → Option Session
process_files m fuel [] s = some s
process_files m fuel (filename ∷ filenames) s =
    elim (process_file m fuel filename s.lint.verbose_level s) [
      | none ↦ none
      | some t ↦ process_files m fuel filenames t
    ]

abbrev pub print_counts : Session → Session
print_counts s = record s { stderr = s.stderr ++ print_error_counts s.lint }

-- `main` behind ParseArguments: the state at the end, with the exit status `error_count > 0`.
unfoldable pub lint_files : Machine → ℕ → List Text → Session → Option (Session × Bool)
lint_files m fuel filenames s =
    elim (process_files m fuel filenames (record s { lint = reset_error_counts s.lint })) [
      | none ↦ none
      | some t ↦ some (print_counts t, ltb 0 t.lint.error_count)
    ]

-- `main`, for what `getopt` finds
unfoldable pub main :
    Machine
    → ℕ
    → Option (List (Text × Text) × List Text)
    → Session
    → Result (Option (Session × Bool))
main m fuel args s = elim (parse_arguments args s.lint) [
  | stop exit ↦ stop exit
  | done (lint, filenames) ↦ done (lint_files m fuel filenames (record s { lint = lint }))
]
