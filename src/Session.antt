-- ===== src/Session.antt =====
-- clint.py: the module's global state (`_cpplint_state`, `_error_suppressions` and what was
-- written to stderr), and the handler `Error` that the checks are given.
pub mod Reporting
use dlmalloc.Prelude.{
  ℕ, Bool, true, false, not, ◌&&◌, ◌||◌, List, [], ◌∷◌, ◌++◌, Option, none, some, ℤ, pos, ◌==◌,
  text_eq, ltb_ℤ, if◌then◌else◌, drop,
}
use dlmalloc.Text.{Text, codes, starts_with}
use dlmalloc.LintState.{LintState, increment_error_count}
use dlmalloc.Nolint.{Suppressions, add_suppression, is_error_suppressed_by_nolint}
use dlmalloc.Report.{Diagnostic, Event, report, suppress, show, show_int, color, fail}

pub record Session : Type 0 where
  pub lint : LintState
  pub suppressions : Suppressions
  pub stderr : List Text

-- One round of the loop over the filters; `none` is the failed assertion.
unfoldable pub apply_filter : Text → Text → Bool → Option Bool
unfolding starts_with
apply_filter category one_filter is_filtered =
    if starts_with one_filter (codes "-")
    then some (if starts_with category (drop 1 one_filter) then true else is_filtered)
    else if starts_with one_filter (codes "+")
    then some (if starts_with category (drop 1 one_filter) then false else is_filtered)
    else none

unfoldable pub filter_verdict : Text → List Text → Bool → Option Bool
unfolding apply_filter
filter_verdict category [] is_filtered = some is_filtered
filter_verdict category (one_filter ∷ filters) is_filtered =
    elim (apply_filter category one_filter is_filtered) [
      | none ↦ none
      | some filtered ↦ filter_verdict category filters filtered
    ]

-- `_ShouldPrintError`; `none` is AssertionError
unfoldable pub should_print_error : Session → Text → ℕ → ℤ → Option Bool
unfolding filter_verdict is_error_suppressed_by_nolint
should_print_error s category confidence linenum =
    if is_error_suppressed_by_nolint category linenum s.suppressions
    then some false
    else if ltb_ℤ (pos confidence) s.lint.verbose_level
    then some false
    else elim (filter_verdict category s.lint.filters false) [
      | none ↦ none
      | some is_filtered ↦ some (not is_filtered)
    ]

-- The line that `Error` writes.
unfoldable pub printed : Text → Diagnostic → Text
unfolding show_int show color
printed output_format d =
    let place =
      if output_format == codes "vs7"
      then d.filename ++ codes "(" ++ show_int d.linenum ++ codes "):  "
      else d.filename ++ codes ":" ++ show_int d.linenum ++ codes ":  " in
    color
      (place
        ++ d.message
        ++ codes "  ["
        ++ d.category
        ++ codes "] ["
        ++ show d.confidence
        ++ codes "]\n")
      fail

-- The state behind an error that is printed.
unfoldable pub log : Diagnostic → Session → Session
log d s = record s {
  lint = increment_error_count d.category s.lint;
  stderr = s.stderr ++ printed s.lint.output_format d ∷ [];
}

-- `Error`; `none` is AssertionError
unfoldable pub handle_error : Diagnostic → Session → Option Session
unfolding should_print_error
handle_error d s = elim (should_print_error s d.category d.confidence d.linenum) [
  | none ↦ none
  | some true ↦ some (log d s)
  | some false ↦ some s
]

unfoldable pub run_event : Event → Session → Option Session
run_event (report d) s = handle_error d s
run_event (suppress category linenum) s =
    some (record s { suppressions = add_suppression category (pos linenum) s.suppressions })

unfoldable pub run_events : List Event → Session → Option Session
run_events [] s = some s
run_events (e ∷ events) s = elim (run_event e s) [ none ↦ none | some t ↦ run_events events t ]
