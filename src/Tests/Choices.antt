-- ===== src/Tests/Choices.antt =====
-- The theorem on ParseArguments, on concrete inputs.
use dlmalloc.Prelude.{◌≡◌, ◌≢◌, ◌⊎◌, refl, true, List, [], ◌∷◌, some, contains, text_eq}
use dlmalloc.Text.{Text, codes, strip, split, starts_with}
use dlmalloc.LintState.{
  initial, LintState, reset_error_counts, set_filters, set_verbose_level, set_output_format,
  set_counting_style,
}
use dlmalloc.Report.{Event}
use dlmalloc.Session.{Session, run_events}
use dlmalloc.Options.{
  parse_arguments, output_formats, counting_styles, store_options, read_options, read_option,
  read_output, read_filter, with_files,
}
use dlmalloc.Options.Accepted.{parse_arguments-Runs}

abbrev given : List (Text × Text)
given = (codes "--output", codes "vs7") ∷ (codes "--filter", codes "-build") ∷ []

-- The lint state that these options lead to.
abbrev chosen : LintState
chosen = record initial {
  output_format = codes "vs7";
  filters = codes "-build/include_alpha" ∷ codes "-build" ∷ [];
  counting = [];
}

parse_arguments-Runs_example :
    (codes "a.c" ∷ [] ≡ codes "a.c" ∷ [])
    × (codes "a.c" ∷ [] ≢ [])
    × (contains output_formats chosen.output_format ≡ true)
    × ((chosen.counting ≡ []) ⊎ (contains counting_styles chosen.counting ≡ true))
    × ((events : List Event) (s : Session)
        → s.lint ≡ reset_error_counts chosen
        → (t : Session) × (run_events events s ≡ some t))
unfolding parse_arguments read_options read_option read_output read_filter with_files store_options
    set_filters set_verbose_level set_output_format set_counting_style strip split starts_with
parse_arguments-Runs_example =
    parse_arguments-Runs given (codes "a.c" ∷ []) (codes "a.c" ∷ []) initial chosen refl refl
