-- ===== src/Session/Reporting.antt =====
-- clint.py: which errors are printed and counted, and that no filter that SetFilters accepts can
-- fail the assertion of `_ShouldPrintError`.
use mathlib.Core.Path.{subst}
use dlmalloc.LintState.Counts.{increment_options}
use dlmalloc.Prelude.{
  ℕ, suc, ◌≤◌, ◌&&◌, ◌+◌, Bool, true, false, not, List, [], ◌∷◌, Option, none, some, ◌≡◌, refl, pos,
  ltb_ℤ, arith, if◌then◌else◌, length, length-append, drop, Bool-cases, inl, inr, sym,
}
use dlmalloc.Text.{Text, codes, starts_with}
use dlmalloc.LintState.Filters.{AllSigned}
use dlmalloc.Nolint.{add_suppression, is_error_suppressed_by_nolint}
use dlmalloc.Report.{Diagnostic, Event, report, suppress}
use dlmalloc.Session.{Session, filter_verdict, printed, log, handle_error, run_event, run_events}

-- Whether a filter speaks of the category: its text behind the sign is a prefix.
abbrev pub concerns : Text → Text → Bool
concerns filt category = starts_with category (drop 1 filt)

-- The last of the filters that speaks of the category.
abbrev pub governing : Text → List Text → Option Text
governing category [] = none
governing category (filt ∷ filters) = elim (governing category filters) [
  | some later ↦ some later
  | none ↦ if concerns filt category then some filt else none
]

-- The verdict of the last filter that speaks of the category.
abbrev pub is_excluded : Option Text → Bool → Bool
is_excluded none otherwise = otherwise
is_excluded (some filt) otherwise = starts_with filt (codes "-")

-- With filters that all have a sign, the loop of _ShouldPrintError fails no assertion, and what
-- it computes is the verdict of the last filter that is a prefix of the category: earlier ones
-- do not matter, and with no such filter the initial value stays.
pub filter_verdict_lem :
    (category : Text) (filters : List Text) (is_filtered : Bool)
    → AllSigned filters
    → filter_verdict category filters is_filtered
      ≡ some (is_excluded (governing category filters) is_filtered)
unfolding filter_verdict
filter_verdict_lem category [] is_filtered h = refl
filter_verdict_lem category (filt ∷ filters) is_filtered h = ground (
  arith,
  filter_verdict_lem category filters true h.1,
  filter_verdict_lem category filters false h.1,
)

-- Whether an error is printed.
abbrev pub is_shown : Session → Diagnostic → Bool
is_shown s d =
    not (is_error_suppressed_by_nolint d.category d.linenum s.suppressions)
    && not (ltb_ℤ (pos d.confidence) s.lint.verbose_level)
    && not (is_excluded (governing d.category s.lint.filters) false)

-- With filters that all have a sign, Error never fails: it logs the error if the line has no
-- NOLINT for it, its confidence reaches the verbosity and the last filter that speaks of its
-- category, if any, does not exclude it; and otherwise it changes nothing.
pub handle_error_lem :
    (d : Diagnostic) (s : Session)
    → AllSigned s.lint.filters
    → handle_error d s ≡ some (if is_shown s d then log d s else s)
unfolding handle_error
handle_error_lem d s h = ground (arith, filter_verdict_lem d.category s.lint.filters false h)

-- The state `t` is `s` with `n` more errors printed and counted; the four options are as they were.
pub record Logged (s t : Session) (n : ℕ) : Type 0 where
  pub filters_kept : t.lint.filters ≡ s.lint.filters
  pub verbose_kept : t.lint.verbose_level ≡ s.lint.verbose_level
  pub counting_kept : t.lint.counting ≡ s.lint.counting
  pub output_format_kept : t.lint.output_format ≡ s.lint.output_format
  pub counted : t.lint.error_count ≡ s.lint.error_count + n
  pub written : length t.stderr ≡ length s.stderr + n

Logged-refl : (s : Session) → Logged s s 0
Logged-refl s = ground arith

Logged-log : (d : Diagnostic) (s : Session) → Logged s (log d s) 1
unfolding log
Logged-log d s =
    let line = printed s.lint.output_format d in
    ground (arith, increment_options d.category s.lint, length-append s.stderr (line ∷ []))

Logged-trans : (s t u : Session) {n m : ℕ} → Logged s t n → Logged t u m → Logged s u (n + m)
Logged-trans s t u a b = ground arith

-- How many errors a list of events reports.
abbrev pub reports : List Event → ℕ
reports [] = 0
reports (report d ∷ events) = suc (reports events)
reports (suppress c l ∷ events) = reports events

-- The effect of some events: it is reached, and at most `m` errors are logged on the way.
abbrev pub Ends : (s : Session) → Option Session → ℕ → Type 0
Ends s r m = (t : Session) × (n : ℕ) × (r ≡ some t) × Logged s t n × (n ≤ m)

Ends-report :
    (d : Diagnostic) (s : Session) → AllSigned s.lint.filters → Ends s (handle_error d s) 1
Ends-report d s h = elim (Bool-cases (is_shown s d)) [
  | inl e ↦ (log d s, 1, rw (handle_error_lem d s h, e) refl, Logged-log d s, omega arith)
  | inr e ↦ (s, 0, rw (handle_error_lem d s h, e) refl, Logged-refl s, omega arith)
]

Ends-event :
    (e : Event) (s : Session) → AllSigned s.lint.filters → Ends s (run_event e s) (reports (e ∷ []))
unfolding run_event
Ends-event (report d) s h = Ends-report d s h
Ends-event (suppress c l) s h = (
  record s { suppressions = add_suppression c (pos l) s.suppressions },
  0,
  refl,
  ground arith,
  omega arith,
)

reports-cons :
    (e : Event) (events : List Event) → reports (e ∷ events) ≡ reports (e ∷ []) + reports events
reports-cons (report d) events = omega arith
reports-cons (suppress c l) events = omega arith

-- With filters that all have a sign, any list of events runs to its end. The filters, the
-- verbosity, the counting style and the output format are as before, the error count has grown by
-- the number of lines written to stderr, and that is at most the number of errors that the events
-- report.
pub run_events-Ends :
    (events : List Event) (s : Session)
    → AllSigned s.lint.filters
    → Ends s (run_events events s) (reports events)
unfolding run_events
run_events-Ends [] s h = (s, 0, refl, Logged-refl s, omega arith)
run_events-Ends (e ∷ events) s h =
    let (t, n, reached, logged, few) = Ends-event e s h in
    let (u, m, reached', logged', few') =
      run_events-Ends events t (subst AllSigned (sym logged.filters_kept) h) in
    (
      u,
      n + m,
      rw (reached, run_events) reached',
      Logged-trans s t u logged logged',
      omega (arith, reports-cons e events),
    )
