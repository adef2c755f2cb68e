-- ===== src/Tests/Reports.antt =====
-- Errors, filters, counts and suppressions.
use dlmalloc.Prelude.{
  ◌&&◌, ◌||◌, [], ◌∷◌, ◌++◌, List, Option, none, some, true, false, ◌≡◌, refl, ◌↔◌, pos, ◌==◌,
  int_eq, option_eq, length, if◌then◌else◌,
}
use dlmalloc.Text.{Text, codes, split, starts_with}
use dlmalloc.LintState.{LintState, default_filters, set_filters, reset_error_counts}
use dlmalloc.LintState
use dlmalloc.LintState.Counts.{increment_all, count_under, errors_under, sum, increment_all-reset}
use dlmalloc.LintState.Filters.{AllSigned, clean_filters, set_filters_lem}
use dlmalloc.Nolint.{add_suppression, is_error_suppressed_by_nolint}
use dlmalloc.Nolint.Parsing.{suppressed-add}
use dlmalloc.Report.{Diagnostic, Event, report, suppress, error}
use dlmalloc.Session.{Session, filter_verdict, handle_error, log, run_events}
use dlmalloc.Session.Reporting.{
  governing, is_excluded, is_shown, filter_verdict_lem, handle_error_lem, reports, Ends,
  run_events-Ends,
}

abbrev start : Session
start = record { lint = LintState.initial; suppressions = []; stderr = [] }

abbrev tab : Diagnostic
tab = record {
  filename = codes "a.c";
  linenum = pos 3;
  category = codes "whitespace/tab";
  confidence = 1;
  message = codes "Tab found; better to use spaces";
}

abbrev filters : List Text
filters = codes "-whitespace" ∷ codes "+whitespace/tab" ∷ []

filter_verdict-tab :
    (filter_verdict (codes "whitespace/tab") filters false ≡ some false)
    × (filter_verdict (codes "whitespace/comma") filters false ≡ some true)
    × (filter_verdict (codes "whitespace/comma") (codes "x" ∷ filters) false ≡ none)
unfolding filter_verdict
filter_verdict-tab = (refl, refl, refl)

set_filters-text :
    (set_filters (codes " -whitespace,, +runtime ") LintState.initial).0.filters
    ≡ default_filters ++ (codes "-whitespace" ∷ codes "+runtime" ∷ [])
unfolding set_filters
set_filters-text = refl

filter_verdict_lem_example :
    filter_verdict (codes "whitespace/tab") filters false
    ≡ some (is_excluded (governing (codes "whitespace/tab") filters) false)
unfolding starts_with
filter_verdict_lem_example =
    filter_verdict_lem (codes "whitespace/tab") filters false (refl, (refl, tt))

handle_error_lem_example :
    handle_error tab start ≡ some (if is_shown start tab then log tab start else start)
unfolding starts_with
handle_error_lem_example = handle_error_lem tab start (refl, tt)

abbrev events : List Event
events = suppress none 4 ∷ report tab ∷ error (codes "a.c") 4 (codes "runtime/int") 5 [] ∷ []

run_events-Ends_example : Ends start (run_events events start) (reports events)
unfolding starts_with
run_events-Ends_example = run_events-Ends events start (refl, tt)

abbrev every : Option Text
every = none

suppressed-add_example :
    is_error_suppressed_by_nolint (codes "runtime/int") (pos 4) (add_suppression every (pos 4) [])
    ≡ (is_error_suppressed_by_nolint (codes "runtime/int") (pos 4) []
        || pos 4 == pos 4 && (every == some (codes "runtime/int") || every == none))
suppressed-add_example = suppressed-add every (pos 4) (pos 4) (codes "runtime/int") []

abbrev detailed : LintState
detailed = record LintState.initial { counting = codes "toplevel" }

abbrev seen : List Text
seen = codes "whitespace/tab" ∷ codes "runtime/int" ∷ codes "whitespace/comma" ∷ []

increment_all-reset_example :
    let end = increment_all seen (reset_error_counts detailed) in
    (end.error_count ≡ length seen)
    × (sum end.errors_by_category ≡ end.error_count)
    × ((key : Text)
        → count_under key end.errors_by_category ≡ errors_under (codes "toplevel") key seen)
increment_all-reset_example = increment_all-reset seen detailed refl

set_filters_lem_example :
    let filters = default_filters ++ clean_filters (split b',' (codes "-,whitespace")) in
    ((set_filters (codes "-,whitespace") LintState.initial).0
      ≡ record LintState.initial { filters = filters })
    × (((set_filters (codes "-,whitespace") LintState.initial).1 ≡ none) ↔ AllSigned filters)
set_filters_lem_example = set_filters_lem (codes "-,whitespace") LintState.initial
