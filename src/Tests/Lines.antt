-- ===== src/Tests/Lines.antt =====
-- The theorems on what is reported for the lines of a file, on concrete inputs.
use dlmalloc.Braces.{check_braces, check_else_braces, join_lines}
use dlmalloc.Regex.{found, matches, search_in, sub}
use dlmalloc.FileNames.Info.{full_name}
use dlmalloc.Prelude.{
  ◌⊎◌, ◌≤◌, ℕ, ◌≡◌, ◌↔◌, refl, true, false, List, [], ◌∷◌, ◌++◌, none, some, pos, length, text_eq,
}
use dlmalloc.Text.{Text, codes, ends_with}
use dlmalloc.Report.{Event, error}
use dlmalloc.FileNames.{Paths, files_belong_to_same_module}
use dlmalloc.Cleanse.{CleansedLines}
use dlmalloc.IncludeState.{IncludeState}
use dlmalloc.Nolint.{parse_nolint_suppressions, add_suppression, on_category}
use dlmalloc.Session.{run_events}
use dlmalloc.Style.{check_style, check_length, header_guard_test}
use dlmalloc.Style.Width.{is_exempt, check_length_iff}
use dlmalloc.Style.Silence.{check_style-silent}
use dlmalloc.WhatYouUse.{check_for_include_what_you_use, original_name, follow_headers}
use dlmalloc.WhatYouUse.Latest.{latest}
use dlmalloc.WhatYouUse.Content.{is_included, check_for_include_what_you_use_iff}
use dlmalloc.Tests.Setup.{ascii, flat, machine, session}

-- A line with several faults and a NOLINT comment, between two lines.
abbrev quiet_lines : CleansedLines
quiet_lines = record {
  elided = codes "" ∷ codes "int x=3;;" ∷ codes "" ∷ [];
  lines = codes "" ∷ codes "int x=3;;" ∷ codes "" ∷ [];
  raw_lines = codes "" ∷ codes "int x=3;; //NOLINT" ∷ codes "" ∷ [];
  num_lines = 3;
}

abbrev style_events : List Event
style_events =
    elim (check_style ascii machine.widths 10 flat (codes "a.c") (codes "c") quiet_lines 1 []) [
      | none ↦ []
      | some events ↦ events
    ]

check_style-silent_example :
    run_events
      (parse_nolint_suppressions (codes "a.c") (codes "int x=3;; //NOLINT") 1 ++ style_events)
      session
    ≡ some (record session { suppressions = add_suppression none (pos 1) [] })
unfolding parse_nolint_suppressions search_in on_category check_style header_guard_test check_braces
    check_else_braces found matches join_lines
check_style-silent_example =
    check_style-silent ascii machine.widths 10 flat (codes "a.c") (codes "c") quiet_lines 1 []
      style_events session refl refl

-- The events that are dropped.
style_events_run : length style_events ≡ 4
unfolding dlmalloc.Braces.check_block_semicolon dlmalloc.Braces.check_braces
    dlmalloc.Braces.check_else_braces dlmalloc.Braces.check_else_line
    dlmalloc.Braces.check_one_line_clauses dlmalloc.Braces.check_opening_brace
    dlmalloc.Braces.join_lines dlmalloc.LineChecks.get_previous_non_blank_line
    dlmalloc.LineChecks.is_blank_line dlmalloc.MacroChecks.check_check
    dlmalloc.MacroChecks.find_macro dlmalloc.Regex.Groups.match_groups
    dlmalloc.Regex.Groups.search_groups dlmalloc.Regex.found dlmalloc.Regex.matches
    dlmalloc.Regex.sub dlmalloc.Spacing.Calls.check_braces_and_semicolons
    dlmalloc.Spacing.Calls.check_close_paren dlmalloc.Spacing.Calls.check_last_semicolon
    dlmalloc.Spacing.Calls.check_open_paren dlmalloc.Spacing.Calls.check_spacing_for_function_call
    dlmalloc.Spacing.Calls.function_call_text dlmalloc.Spacing.Comments.check_comment
    dlmalloc.Spacing.Comments.check_comment_at dlmalloc.Spacing.Comments.check_comment_spacing
    dlmalloc.Spacing.Comments.is_close dlmalloc.Spacing.Comments.is_outside_quotes
    dlmalloc.Spacing.Operators.check_named dlmalloc.Spacing.Operators.check_operators
    dlmalloc.Spacing.Operators.check_separators dlmalloc.Spacing.Operators.search_comparison
    dlmalloc.Spacing.Operators.without_operators dlmalloc.Spacing.check_spacing
    dlmalloc.Style.check_commands dlmalloc.Style.check_indent dlmalloc.Style.check_length
    dlmalloc.Style.check_style dlmalloc.Style.ends_in_space dlmalloc.Style.get_line_width
    dlmalloc.Style.header_guard_test dlmalloc.Style.initial_spaces dlmalloc.Style.sum_widths
    dlmalloc.Text.all_space dlmalloc.Text.count dlmalloc.Text.occurs
style_events_run = refl

abbrev code_lines : List Text
code_lines = codes "vector<int> v;" ∷ codes "  map <int, int> m;" ∷ []

abbrev with_vector : IncludeState
with_vector = record dlmalloc.IncludeState.initial { includes = (codes "vector", codes "1") ∷ [] }

check_for_include_what_you_use_iff_example :
    (check_for_include_what_you_use machine.surroundings flat (codes "a.h") code_lines with_vector
      ≡ [])
    ↔ ((header : Text) (need : ℕ × Text)
        → latest header 0 code_lines ≡ some need
        → is_included with_vector header ≡ true)
unfolding follow_headers files_belong_to_same_module ends_with original_name sub full_name
check_for_include_what_you_use_iff_example =
    check_for_include_what_you_use_iff machine.surroundings flat (codes "a.h") code_lines
      with_vector with_vector false (λ names name. refl) refl refl

-- It reports that <map> is missing.
check_for_include_what_you_use_run :
    check_for_include_what_you_use machine.surroundings flat (codes "a.h") code_lines with_vector
    ≡ error
        (codes "a.h")
        1
        (codes "build/include_what_you_use")
        4
        (codes "Add #include <map> for map<>")
      ∷ []
unfolding dlmalloc.Cleanse.cleanse_comments dlmalloc.FileNames.Info.full_name
    dlmalloc.FileNames.files_belong_to_same_module dlmalloc.Regex.found dlmalloc.Text.ends_with
    dlmalloc.Text.occurs dlmalloc.WhatYouUse.Tables.template_entities_of
    dlmalloc.WhatYouUse.check_for_include_what_you_use dlmalloc.WhatYouUse.drop_delimiters
    dlmalloc.WhatYouUse.follow_headers dlmalloc.WhatYouUse.original_name
    dlmalloc.WhatYouUse.report_header dlmalloc.WhatYouUse.report_headers
    dlmalloc.WhatYouUse.require_entities dlmalloc.WhatYouUse.require_line
    dlmalloc.WhatYouUse.require_lines dlmalloc.WhatYouUse.require_string
    dlmalloc.WhatYouUse.strip_delimiters dlmalloc.WhatYouUse.uses_string
check_for_include_what_you_use_run = refl

-- Three lines, the last of them empty.
abbrev crlf_text : Text
crlf_text = codes "int x;;\r\nint y;\r\n"

abbrev lf_text : Text
lf_text = codes "int x;;\nint y;\n"

check_length_iff_example :
    (check_length machine.widths (codes "a.c") (codes "int x;") 1 false ≡ [])
    ↔ ((is_exempt (codes "int x;") false ≡ true) ⊎ (6 ≤ 100))
check_length_iff_example =
    check_length_iff machine.widths (codes "a.c") (codes "int x;") 1 false
      (refl, refl, (refl, refl, (refl, refl, (refl, refl, (refl, refl, (refl, refl, tt))))))
