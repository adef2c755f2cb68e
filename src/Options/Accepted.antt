-- ===== src/Options/Accepted.antt =====
-- clint.py, `ParseArguments`: what holds of the lint state that it returns with.
use mathlib.Core.Path.{subst}
use dlmalloc.Prelude.{
  ◌≡◌, ◌≢◌, ◌⊎◌, refl, sym, ap, ◌∙◌, inl, inr, true, List, [], ◌∷◌, none, some, arith, text_eq,
  contains, Option-cases, Bool-cases,
}
use dlmalloc.Text.{Text}
use dlmalloc.LintState.{
  LintState, set_filters, set_verbose_level, set_output_format, set_counting_style,
  reset_error_counts,
}
use dlmalloc.LintState.Filters.{AllSigned, set_filters_lem}
use dlmalloc.Report.{Event}
use dlmalloc.Session.{Session, run_events}
use dlmalloc.Session.Reporting.{run_events-Ends}
use dlmalloc.Options.{
  Options, Result, done, stop, output_formats, counting_styles, parse_int, read_verbosity,
  read_output, read_filter, read_counting, Exit, read_option, read_options, starting, store_options,
  with_files, parse_arguments,
}

-- What may be stored: a known output format, and a known counting style or the empty text, which
-- ParseArguments begins with.
pub record Valid (o : Options) : Type 0 where
  pub format_known : contains output_formats o.output_format ≡ true
  pub counting_known : (o.counting_style ≡ []) ⊎ (contains counting_styles o.counting_style ≡ true)

stop≢done : {A : Type 0} {exit : Exit} {a : A} → stop exit ≢ done a
stop≢done = λ h. ground arith

read_verbosity-kept :
    (val : Text) (o o' : Options)
    → read_verbosity val o ≡ done o'
    → (o'.output_format ≡ o.output_format) × (o'.counting_style ≡ o.counting_style)
unfolding read_verbosity
read_verbosity-kept val o o' h = elim (Option-cases (parse_int val)) [
  | inl e ↦ ground arith
  | inr (v, e) ↦ ground arith
]

read_output-Valid : (val : Text) (o o' : Options) → Valid o → read_output val o ≡ done o' → Valid o'
unfolding read_output
read_output-Valid val o o' v h = elim (Bool-cases (contains output_formats val)) [
  | inl e ↦ ground arith
  | inr e ↦ ground arith
]

read_filter-Valid : (val : Text) (o o' : Options) → Valid o → read_filter val o ≡ done o' → Valid o'
unfolding read_filter
read_filter-Valid [] o o' v h = absurd (stop≢done h)
read_filter-Valid (c ∷ val) o o' v h = ground arith

read_counting-Valid :
    (val : Text) (o o' : Options) → Valid o → read_counting val o ≡ done o' → Valid o'
unfolding read_counting
read_counting-Valid val o o' v h = elim (Bool-cases (contains counting_styles val)) [
  | inl e ↦ ground arith
  | inr e ↦ ground arith
]

read_verbosity-Valid :
    (val : Text) (o o' : Options) → Valid o → read_verbosity val o ≡ done o' → Valid o'
read_verbosity-Valid val o o' v h = let (f, c) = read_verbosity-kept val o o' h in ground arith

read_option-Valid :
    (opt val : Text) (o o' : Options) → Valid o → read_option opt val o ≡ done o' → Valid o'
unfolding read_option
read_option-Valid opt val o o' v h = ground (
  arith,
  read_output-Valid val o o' v,
  read_filter-Valid val o o' v,
  read_counting-Valid val o o' v,
  read_verbosity-Valid val o o' v,
)

Result-cases :
    {A : Type 0} (r : Result A) → ((exit : Exit) × (r ≡ stop exit)) ⊎ ((a : A) × (r ≡ done a))
Result-cases (stop exit) = inl (exit, refl)
Result-cases (done a) = inr (a, refl)

options-stop :
    (opt val : Text) (opts : List (Text × Text)) (o : Options) (exit : Exit)
    → read_option opt val o ≡ stop exit
    → read_options ((opt, val) ∷ opts) o ≡ stop exit
unfolding read_options
options-stop opt val opts o exit e = rw (read_options, e) refl

options-done :
    (opt val : Text) (opts : List (Text × Text)) (o next : Options)
    → read_option opt val o ≡ done next
    → read_options ((opt, val) ∷ opts) o ≡ read_options opts next
unfolding read_options
options-done opt val opts o next e = rw (read_options, e) refl

read_options-Valid :
    (opts : List (Text × Text)) (o o' : Options)
    → Valid o
    → read_options opts o ≡ done o'
    → Valid o'
unfolding read_options
read_options-Valid [] o o' v h = ground arith
read_options-Valid ((opt, val) ∷ opts) o o' v h = elim (Result-cases (read_option opt val o)) [
  | inl (exit, e) ↦ absurd (stop≢done (sym (options-stop opt val opts o exit e) ∙ h))
  | inr (next, e) ↦
      read_options-Valid opts next o' (read_option-Valid opt val o next v e)
        (sym (options-done opt val opts o next e) ∙ h)
]

-- The state that SetFilters is called on.
abbrev before_filters : Options → LintState → LintState
before_filters o st = (set_verbose_level o.verbosity (set_output_format o.output_format st)).0

store-cases :
    (o : Options) (st next : LintState)
    → store_options o st ≡ done next
    → ((set_filters o.filters (before_filters o st)).1 ≡ none)
      × (next ≡ set_counting_style o.counting_style (set_filters o.filters (before_filters o st)).0)
unfolding store_options
store-cases o st next h = elim (Option-cases (set_filters o.filters (before_filters o st)).1) [
  | inl e ↦ ground arith
  | inr (filt, e) ↦ ground arith
]

-- Behind the calls that store the options, all filters have signs, and the output format and the
-- counting style are those of the options.
store_options-Signed :
    (o : Options) (st next : LintState)
    → store_options o st ≡ done next
    → AllSigned next.filters
      × (next.output_format ≡ o.output_format)
      × (next.counting ≡ o.counting_style)
unfolding set_counting_style set_verbose_level set_output_format
store_options-Signed o st next h =
    let (e, same) = store-cases o st next h in
    let (stored, signed) = set_filters_lem o.filters (before_filters o st) in
    let stored_filters = ap (λ t. t.filters) same ∙ ap (λ t. t.filters) stored in
    (
      subst AllSigned (sym stored_filters) (signed.0 e),
      ap (λ t. t.output_format) same ∙ ap (λ t. t.output_format) stored,
      ap (λ t. t.counting) same,
    )

-- The options that ParseArguments begins with.
start-Valid :
    (st : LintState) → contains output_formats st.output_format ≡ true → Valid (starting st)
start-Valid st h = record { format_known = h; counting_known = inl refl }

parse-stop :
    (opts : List (Text × Text)) (filenames : List Text) (st : LintState) (exit : Exit)
    → read_options opts (starting st) ≡ stop exit
    → parse_arguments (some (opts, filenames)) st ≡ stop exit
unfolding parse_arguments
parse-stop opts filenames st exit e = rw (parse_arguments, e) refl

parse-stored :
    (opts : List (Text × Text)) (filenames : List Text) (st : LintState) (o : Options)
    → read_options opts (starting st) ≡ done o
    → parse_arguments (some (opts, filenames)) st ≡ with_files filenames o st
unfolding parse_arguments
parse-stored opts filenames st o e = rw (parse_arguments, e) refl

files-stop :
    (f : Text) (fs : List Text) (o : Options) (st : LintState) (exit : Exit)
    → store_options o st ≡ stop exit
    → with_files (f ∷ fs) o st ≡ stop exit
unfolding with_files
files-stop f fs o st exit e = rw (with_files, e) refl

files-done :
    (f : Text) (fs : List Text) (o : Options) (st next : LintState)
    → store_options o st ≡ done next
    → with_files (f ∷ fs) o st ≡ done (next, f ∷ fs)
unfolding with_files
files-done f fs o st next e = simp (with_files, e)

stored-cases :
    (filenames names : List Text) (o : Options) (st next : LintState)
    → with_files filenames o st ≡ done (next, names)
    → (store_options o st ≡ done next) × (filenames ≡ names) × (filenames ≢ [])
unfolding with_files
stored-cases [] names o st next h = absurd (stop≢done h)
stored-cases (f ∷ fs) names o st next h = elim (Result-cases (store_options o st)) [
  | inl (exit, e) ↦ absurd (stop≢done (sym (files-stop f fs o st exit e) ∙ h))
  | inr (l, e) ↦
      let d = sym (files-done f fs o st l e) ∙ h in (ground arith, ground arith, λ q. ground arith)
]

parse-cases :
    (opts : List (Text × Text)) (filenames names : List Text) (st next : LintState)
    → parse_arguments (some (opts, filenames)) st ≡ done (next, names)
    → (o : Options) × (read_options opts (starting st) ≡ done o)
      × (store_options o st ≡ done next)
      × (filenames ≡ names)
      × (filenames ≢ [])
unfolding parse_arguments
parse-cases opts filenames names st next h = elim (Result-cases (read_options opts (starting st))) [
  | inl (exit, e) ↦ absurd (stop≢done (sym (parse-stop opts filenames st exit e) ∙ h))
  | inr (o, e) ↦
      let (stored, same, some_file) =
        stored-cases filenames names o st next (sym (parse-stored opts filenames st o e) ∙ h) in
      (o, e, stored, same, some_file)
]

-- When ParseArguments returns, for a state with a known output format: there is a file to lint,
-- the files are those that getopt found, the output format and the counting style are known ones
-- (or no counting style was given), all filters have signs, and so any list of events runs to its
-- end from then on: Error never fails an assertion.
pub parse_arguments-Runs :
    (opts : List (Text × Text)) (filenames names : List Text) (st next : LintState)
    → contains output_formats st.output_format ≡ true
    → parse_arguments (some (opts, filenames)) st ≡ done (next, names)
    → (filenames ≡ names)
      × (names ≢ [])
      × (contains output_formats next.output_format ≡ true)
      × ((next.counting ≡ []) ⊎ (contains counting_styles next.counting ≡ true))
      × ((events : List Event) (s : Session)
          → s.lint ≡ reset_error_counts next
          → (t : Session) × (run_events events s ≡ some t))
unfolding reset_error_counts
parse_arguments-Runs opts filenames names st next k h =
    let (o, reached, stored, same, some_file) = parse-cases opts filenames names st next h in
    let (signed, format, counting) = store_options-Signed o st next stored in
    let valid = read_options-Valid opts (starting st) o (start-Valid st k) reached in
    (
      same,
      λ empty. some_file (same ∙ empty),
      subst (λ t. contains output_formats t ≡ true) (sym format) valid.format_known,
      subst (λ t. (t ≡ []) ⊎ (contains counting_styles t ≡ true)) (sym counting)
          valid.counting_known,
      λ events s e.
          let (t, n, ran, logged, few) =
            run_events-Ends events s (subst AllSigned (sym (ap (λ l. l.filters) e)) signed) in
          (t, ran),
    )

-- All filters of the state that ParseArguments returns have signs.
pub parse_arguments-Signed :
    (opts : List (Text × Text)) (filenames names : List Text) (st next : LintState)
    → parse_arguments (some (opts, filenames)) st ≡ done (next, names)
    → AllSigned next.filters
parse_arguments-Signed opts filenames names st next h =
    let (o, reached, stored, same, some_file) = parse-cases opts filenames names st next h in
    (store_options-Signed o st next stored).0
