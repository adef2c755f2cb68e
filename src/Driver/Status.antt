-- ===== src/Driver/Status.antt =====
-- clint.py, `main`: what is written and counted over all files, and the exit status.
use mathlib.Core.Path.{subst}
use dlmalloc.Prelude.{
  ℕ, ◌+◌, ◌<◌, ◌≡◌, ◌↔◌, refl, sym, inl, inr, Bool, true, false, ◌||◌, List, [], ◌∷◌, ◌++◌, Option,
  none, some, ℤ, arith, Option-cases, Bool-cases, length, length-append, if◌then◌else◌, ltb,
}
use dlmalloc.Text.{Text, codes, split}
use dlmalloc.Report.{Event}
use dlmalloc.LintState.{set_verbose_level, reset_error_counts, print_error_counts}
use dlmalloc.LintState.Filters.{AllSigned}
use dlmalloc.Session.{Session, run_events}
use dlmalloc.Session.Reporting.{Logged, run_events-Ends}
use dlmalloc.Driver.{
  strip_returns, file_extension_of, is_ignored, write, return_events, lint_text, lint_file,
  process_file, process_files, print_counts, lint_files,
}
use dlmalloc.Driver.Lines.{Machine, file_events, run_all, process_file_data}

abbrev pub has_value : {A : Type 0} → Option A → Bool
has_value none = false
has_value (some a) = true

-- Whether the checks of a file return, if it is one to check.
unfoldable pub is_checked : Machine → ℕ → ℤ → Text → Bool
is_checked m fuel verbose filename = elim (m.read_file filename) [
  | none ↦ true
  | some text ↦
      is_ignored filename
      || has_value (
          file_events m fuel verbose filename (file_extension_of filename)
            (strip_returns (split b'\n' text)).0)
]

abbrev pub AllChecked : Machine → ℕ → ℤ → List Text → Type 0
AllChecked m fuel verbose [] = Unit
AllChecked m fuel verbose (filename ∷ filenames) =
    (is_checked m fuel verbose filename ≡ true) × AllChecked m fuel verbose filenames

-- The lines about a file itself: that it is skipped, or that it is done and perhaps ignored.
abbrev pub notices : Machine → Text → ℕ
notices m filename = elim (m.read_file filename) [
  | none ↦ 1
  | some text ↦ if is_ignored filename then 2 else 1
]

abbrev pub all_notices : Machine → List Text → ℕ
all_notices m [] = 0
all_notices m (filename ∷ filenames) = notices m filename + all_notices m filenames

-- The state `t` is `s` with some more errors printed and counted, and `k` more lines written;
-- options are as they were.
pub record Linted (s t : Session) (k : ℕ) : Type 0 where
  pub filters_kept : t.lint.filters ≡ s.lint.filters
  pub verbose_kept : t.lint.verbose_level ≡ s.lint.verbose_level
  pub counted : length t.stderr + s.lint.error_count ≡ length s.stderr + t.lint.error_count + k

Linted-trans : (s t u : Session) {j k : ℕ} → Linted s t j → Linted t u k → Linted s u (j + k)
Linted-trans s t u a b = ground arith

Linted-write : (text : Text) (s : Session) → Linted s (write text s) 1
Linted-write text s = ground (arith, length-append s.stderr (text ∷ []))

Linted-Logged : (s t : Session) (n : ℕ) → Logged s t n → Linted s t 0
Linted-Logged s t n l = ground arith

-- An outcome that is reached, with `k` lines written beside the errors.
abbrev pub Lints : Session → Option Session → ℕ → Type 0
Lints s r k = (t : Session) × (r ≡ some t) × Linted s t k

Lints-events :
    (events : List Event) (s : Session) → AllSigned s.lint.filters → Lints s (run_events events s) 0
Lints-events events s h =
    let (t, n, reached, logged, few) = run_events-Ends events s h in
    (t, reached, Linted-Logged s t n logged)

Lints-then :
    (s : Session) (r : Option Session) (j k : ℕ) (f : Session → Option Session)
    → Lints s r j
    → ((t : Session) → Linted s t j → Lints t (f t) k)
    → Lints s (elim r [ none ↦ none | some t ↦ f t ]) (j + k)
Lints-then s r j k f (t, e, l) next =
    let (u, g, l') = next t l in (u, rw e g, Linted-trans s t u l l')

Signed-kept :
    (s t : Session) (k : ℕ) → Linted s t k → AllSigned s.lint.filters → AllSigned t.lint.filters
Signed-kept s t k l h = subst AllSigned (sym l.filters_kept) h

Lints-data :
    (m : Machine) (fuel : ℕ) (filename ext : Text) (lines : List Text) (s : Session)
    → AllSigned s.lint.filters
    → has_value (file_events m fuel s.lint.verbose_level filename ext lines) ≡ true
    → Lints s (process_file_data m fuel filename ext lines s) 0
unfolding process_file_data run_all
Lints-data m fuel filename ext lines s h c =
    elim (Option-cases (file_events m fuel s.lint.verbose_level filename ext lines)) [
      | inl e ↦ absurd (ground arith)
      | inr (events, e) ↦
          let (t, reached, l) = Lints-events events (record s { suppressions = [] }) h in
          (t, rw (process_file_data, e, run_all) reached, ground arith)
    ]

-- The two branches on the name of a file that was read.
Lints-ignored :
    (m : Machine) (fuel : ℕ) (filename text : Text) (s : Session)
    → is_ignored filename ≡ true
    → Lints s (lint_text m fuel filename text s) 1
unfolding lint_text
Lints-ignored m fuel filename text s i =
    let notice =
      dlmalloc.Report.color (codes "Ignoring " ++ filename ++ codes "; not a .c or .h file\n") [] in
    (write notice s, rw (lint_text, i) refl, Linted-write notice s)

Lints-text :
    (m : Machine) (fuel : ℕ) (filename text : Text) (s : Session)
    → AllSigned s.lint.filters
    → is_ignored filename ≡ false
    → has_value (
        file_events m fuel s.lint.verbose_level filename
          (file_extension_of filename)
          (strip_returns (split b'\n' text)).0)
      ≡ true
    → Lints s (lint_text m fuel filename text s) 0
unfolding lint_text
Lints-text m fuel filename text s h i c =
    rw (lint_text, i)
      (let (lines, returned) = strip_returns (split b'\n' text) in
        Lints-then s (process_file_data m fuel filename (file_extension_of filename) lines s) 0 0
          (λ t. run_events (return_events m filename returned) t)
          (Lints-data m fuel filename (file_extension_of filename) lines s h c)
          (λ t l. Lints-events (return_events m filename returned) t (Signed-kept s t 0 l h)))

done_notice : Text → Text
done_notice filename = dlmalloc.Report.color (codes "Done processing " ++ filename ++ codes "\n") []

Lints-file :
    (m : Machine) (fuel : ℕ) (filename : Text) (s : Session)
    → AllSigned s.lint.filters
    → is_checked m fuel s.lint.verbose_level filename ≡ true
    → Lints s (lint_file m fuel filename s) (notices m filename)
unfolding lint_file done_notice is_checked
Lints-file m fuel filename s h c = elim (Option-cases (m.read_file filename)) [
  | inl e ↦
      let notice =
        dlmalloc.Report.color
          (codes "Skipping input '" ++ filename ++ codes "': Can't open for reading\n")
          dlmalloc.Report.warning in
      rw (lint_file, notices, e) (write notice s, refl, Linted-write notice s)
  | inr (text, e) ↦ elim (Bool-cases (is_ignored filename)) [
    | inl i ↦
        rw (lint_file, notices, e, i)
          (Lints-then s (lint_text m fuel filename text s) 1 1
            (λ t. some (write (done_notice filename) t)) (Lints-ignored m fuel filename text s i)
            (λ t l. (write (done_notice filename) t, refl, Linted-write (done_notice filename) t)))
    | inr i ↦
        rw (lint_file, notices, e, i)
          (Lints-then s (lint_text m fuel filename text s) 0 1
            (λ t. some (write (done_notice filename) t))
            (Lints-text m fuel filename text s h i (ground arith))
            (λ t l. (write (done_notice filename) t, refl, Linted-write (done_notice filename) t)))
  ]
]

Lints-files :
    (m : Machine) (fuel : ℕ) (filenames : List Text) (s : Session)
    → AllSigned s.lint.filters
    → AllChecked m fuel s.lint.verbose_level filenames
    → Lints s (process_files m fuel filenames s) (all_notices m filenames)
unfolding process_files process_file set_verbose_level
Lints-files m fuel [] s h c = (s, refl, ground arith)
Lints-files m fuel (filename ∷ filenames) s h c =
    Lints-then s (process_file m fuel filename s.lint.verbose_level s) (notices m filename)
      (all_notices m filenames) (process_files m fuel filenames)
      (Lints-file m fuel filename s h c.0)
      (λ t l.
        Lints-files m fuel filenames t (Signed-kept s t (notices m filename) l h)
          (subst (λ v. AllChecked m fuel v filenames) (sym l.verbose_kept) c.1))

-- If all filters have signs and the checks of every file that is read and not ignored return,
-- main runs to its end. Beside the notices on the files and the summary, what it has then written
-- is one line for every error counted, and the exit status is 1 exactly if there is one.
pub lint_files-Counted :
    (m : Machine) (fuel : ℕ) (filenames : List Text) (s : Session)
    → AllSigned s.lint.filters
    → AllChecked m fuel s.lint.verbose_level filenames
    → (t : Session) × (status : Bool) × (lint_files m fuel filenames s ≡ some (t, status))
      × (length t.stderr
          ≡ length s.stderr
            + t.lint.error_count
            + all_notices m filenames
            + length (print_error_counts t.lint))
      × ((status ≡ true) ↔ (0 < t.lint.error_count))
unfolding lint_files reset_error_counts
lint_files-Counted m fuel filenames s h c =
    let start = record s { lint = reset_error_counts s.lint } in
    let (t, reached, l) = Lints-files m fuel filenames start h c in
    (
      print_counts t,
      ltb 0 t.lint.error_count,
      rw (lint_files, reached) refl,
      ground (arith, length-append t.stderr (print_error_counts t.lint)),
      ground arith,
    )
