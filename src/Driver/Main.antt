-- ===== src/Driver/Main.antt =====
-- clint.py, `main`: a whole run, from the options on.
use dlmalloc.Prelude.{ℕ, ◌+◌, ◌<◌, ◌≡◌, ◌↔◌, ap, Bool, true, List, some, length}
use dlmalloc.Text.{Text}
use dlmalloc.LintState.{LintState, print_error_counts}
use dlmalloc.Session.{Session}
use dlmalloc.Options.{done, parse_arguments}
use dlmalloc.Options.Accepted.{parse_arguments-Signed}
use dlmalloc.Driver.Lines.{Machine}
use dlmalloc.Driver.{main}
use dlmalloc.Driver.Status.{AllChecked, all_notices, lint_files-Counted}

-- If ParseArguments accepts the options and the checks of every file that is read and not ignored
-- return, main runs to its end. Beside the notices on the files and the summary, what it has then
-- written is one line for every error counted, and the exit status is 1 exactly if there is one.
pub main-Counted :
    (m : Machine) (fuel : ℕ) (opts : List (Text × Text)) (filenames names : List Text) (s : Session)
    (next : LintState)
    → parse_arguments (some (opts, filenames)) s.lint ≡ done (next, names)
    → AllChecked m fuel next.verbose_level names
    → (t : Session) × (status : Bool) × (main m fuel (some (opts, filenames)) s
        ≡ done (some (t, status)))
      × (length t.stderr
          ≡ length s.stderr
            + t.lint.error_count
            + all_notices m names
            + length (print_error_counts t.lint))
      × ((status ≡ true) ↔ (0 < t.lint.error_count))
unfolding main
main-Counted m fuel opts filenames names s next accepted checked =
    let signed = parse_arguments-Signed opts filenames names s.lint next accepted in
    let (t, status, reached, written, exit) =
      lint_files-Counted m fuel names (record s { lint = next }) signed checked in
    (t, status, rw (main, accepted) (ap done reached), written, exit)
