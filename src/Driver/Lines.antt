-- ===== src/Driver/Lines.antt =====
-- clint.py: `ProcessLine` and `ProcessFileData`, with no extra checks. `none` is an exception that
-- nothing catches, or a loop that does not end with this much fuel.
use dlmalloc.Prelude.{
  ℕ, zero, suc, ◌+◌, List, [], ◌∷◌, ◌++◌, Option, none, some, ℤ, ◌==◌, text_eq, nat_eq,
  if◌then◌else◌, get_or,
}
use dlmalloc.Text.{Text, codes}
use dlmalloc.Unicode.{Unicode}
use dlmalloc.Report.{Event}
use dlmalloc.Nolint.{parse_nolint_suppressions, reset_nolint_suppressions}
use dlmalloc.Session.{Session, run_events}
use dlmalloc.FunctionState.{FunctionState, check_for_function_lengths}
use dlmalloc.IncludeState.{IncludeState}
use dlmalloc.Classes.{ClassInfo, check_finished}
use dlmalloc.Classes.Constructs.{check_for_non_standard_constructs}
use dlmalloc.Cleanse.{CleansedLines, cleansed_lines, remove_multi_line_comments}
use dlmalloc.FileNames.{Paths}
use dlmalloc.FileChecks.{
  check_for_copyright, check_for_header_guard, check_for_unicode_replacement_characters,
  check_for_newline_at_eof,
}
use dlmalloc.LineChecks.{
  check_for_multiline_comments_and_strings, check_posix_threading, check_invalid_increment,
  check_make_pair_uses_deduction,
}
use dlmalloc.Style.{Widths, check_style}
use dlmalloc.Language.{check_language}
use dlmalloc.WhatYouUse.{Surroundings, check_for_include_what_you_use}

-- What the source takes from Python's libraries and from the machine: `none` for a file is IOError.
pub record Machine : Type 0 where
  pub unicode : Unicode
  pub widths : Widths
  pub paths : Paths
  pub surroundings : Surroundings
  pub read_file : Text → Option Text
  pub linesep : Text

-- What the checks of the lines hand on from one line to the next.
pub record LineState : Type 0 where
  pub include_state : IncludeState
  pub function_state : FunctionState
  pub class_state : List ClassInfo

abbrev pub fresh : LineState
fresh = record {
  include_state = dlmalloc.IncludeState.initial;
  function_state = dlmalloc.FunctionState.initial;
  class_state = [];
}

-- The checks of a line that keep no state and stand behind those that do.
unfoldable pub check_pitfalls : Machine → Text → CleansedLines → ℕ → List Event
check_pitfalls m filename clean_lines line =
    let elided = get_or clean_lines.elided line [] in
    check_posix_threading m.unicode filename elided line
    ++ check_invalid_increment filename elided line
    ++ check_make_pair_uses_deduction filename (get_or clean_lines.raw_lines line []) line

-- `ProcessLine`, for the level that `_VerboseLevel` returns
unfoldable pub process_line :
    Machine → ℕ → ℤ → Text → Text → CleansedLines → ℕ → LineState → Option (LineState × List Event)
process_line m fuel verbose filename file_extension clean_lines line st =
    elim (check_for_function_lengths verbose filename clean_lines.lines line st.function_state) [
      | none ↦ none
      | some (function_state, length_events) ↦
          elim (check_style m.unicode m.widths fuel m.paths filename file_extension clean_lines line
            st.class_state) [
              | none ↦ none
              | some style_events ↦
                  elim (check_language m.unicode fuel m.paths filename file_extension clean_lines
                    line st.include_state) [
                      | none ↦ none
                      | some (include_state, language_events) ↦
                          let (class_state, construct_events) =
                            check_for_non_standard_constructs filename clean_lines.lines
                              clean_lines.elided line st.class_state in
                          some (
                            record {
                              include_state = include_state;
                              function_state = function_state;
                              class_state = class_state;
                            },
                            parse_nolint_suppressions filename
                                  (get_or clean_lines.raw_lines line []) line
                                ++ length_events
                                ++ check_for_multiline_comments_and_strings filename
                                    (get_or clean_lines.elided line []) line
                                ++ style_events
                                ++ language_events
                                ++ construct_events
                                ++ check_pitfalls m filename clean_lines line,
                          )
                    ]
            ]
    ]

-- The loop over the lines from `line` on, of which there are `count`.
unfoldable pub process_lines :
    Machine
    → ℕ
    → ℤ
    → Text
    → Text
    → CleansedLines
    → ℕ
    → ℕ
    → LineState
    → Option (LineState × List Event)
process_lines m fuel verbose filename file_extension clean_lines line zero st = some (st, [])
process_lines m fuel verbose filename file_extension clean_lines line (suc count) st =
    elim (process_line m fuel verbose filename file_extension clean_lines line st) [
      | none ↦ none
      | some (next, events) ↦
          elim (process_lines m fuel verbose filename file_extension clean_lines (line + 1) count
            next) [ none ↦ none | some (last, more) ↦ some (last, events ++ more) ]
    ]

abbrev pub with_markers : List Text → List Text
with_markers lines =
    codes "// marker so line numbers and indices both start at 1" ∷ lines
    ++ codes "// marker so line numbers end in a known way" ∷ []

abbrev pub header_guard_events : Text → Text → List Text → Option (List Event)
header_guard_events filename file_extension lines =
    if file_extension == codes "h" then check_for_header_guard filename lines else some []

-- What ProcessFileData does behind RemoveMultiLineComments, which changes `lines` in place.
unfoldable pub check_lines : Machine → ℕ → ℤ → Text → Text → List Text → Option (List Event)
check_lines m fuel verbose filename file_extension lines =
    let clean_lines = cleansed_lines lines in
    elim (process_lines m fuel verbose filename file_extension clean_lines 0 clean_lines.num_lines
      fresh) [
        | none ↦ none
        | some (last, events) ↦ some (
            events
            ++ check_finished filename last.class_state
            ++ check_for_include_what_you_use m.surroundings m.paths filename clean_lines.elided
                last.include_state
            ++ check_for_unicode_replacement_characters filename lines
            ++ check_for_newline_at_eof filename lines)
      ]

-- The calls of the error handler in ProcessFileData.
unfoldable pub file_events : Machine → ℕ → ℤ → Text → Text → List Text → Option (List Event)
file_events m fuel verbose filename file_extension file_lines =
    let lines = with_markers file_lines in
    elim (header_guard_events filename file_extension lines) [
      | none ↦ none
      | some guard_events ↦ elim (remove_multi_line_comments filename lines) [
        | none ↦ none
        | some (kept, comment_events) ↦
            elim (check_lines m fuel verbose filename file_extension kept) [
              | none ↦ none
              | some events ↦
                  some
                    (check_for_copyright filename lines ++ guard_events ++ comment_events ++ events)
            ]
      ]
    ]

unfoldable pub run_all : Option (List Event) → Session → Option Session
run_all none s = none
run_all (some events) s = run_events events s

-- `ProcessFileData`, with `Error` as the handler
unfoldable pub process_file_data : Machine → ℕ → Text → Text → List Text → Session → Option Session
process_file_data m fuel filename file_extension lines s =
    run_all (file_events m fuel s.lint.verbose_level filename file_extension lines)
      (record s { suppressions = reset_nolint_suppressions })
