-- ===== src/Spacing/Lines.antt =====
-- clint.py: the reports of CheckSpacing are on the line that it checks.
use dlmalloc.Prelude.{ℕ, Option, none, some, Option-cases, inl, inr}
use dlmalloc.Text.{Text, find}
use dlmalloc.Regex.Groups.{Groups, search_groups, match_groups}
use dlmalloc.Cleanse.{CleansedLines}
use dlmalloc.Classes.Sections.{section_of}
use dlmalloc.Report.Lines.{AllAt, nil, at_rules, AllAt-option}
use dlmalloc.Spacing.{check_spacing}
use dlmalloc.Spacing.Blank.{line_above, check_blank_line}
use dlmalloc.Spacing.Comments.{check_comment, check_comment_at, check_comment_spacing}
use dlmalloc.Spacing.Operators.{
  re_condition, check_named, check_condition, check_operators, check_separators,
}
use dlmalloc.Spacing.Calls.{
  check_open_paren, check_close_paren, check_spacing_for_function_call, check_last_semicolon,
  check_braces_and_semicolons,
}

check_blank_line-AllAt :
    (filename : Text) (clean_lines : CleansedLines) (n : ℕ)
    → AllAt n (check_blank_line filename clean_lines n)
unfolding check_blank_line
check_blank_line-AllAt filename clean_lines n =
    elim (Option-cases (section_of (line_above clean_lines.elided n))) [
      | inl e ↦ rw (check_blank_line, e) (search at_rules)
      | inr (section, e) ↦ rw (check_blank_line, e) (search at_rules)
    ]

check_comment-AllAt : (comment filename : Text) (n : ℕ) → AllAt n (check_comment comment filename n)
unfolding check_comment
check_comment-AllAt comment filename n =
    AllAt-option (match_groups _ comment) _ (λ groups. search at_rules)

check_comment_at-AllAt :
    (filename line : Text) (n commentpos : ℕ)
    → AllAt n (check_comment_at filename line n commentpos)
unfolding check_comment_at
check_comment_at-AllAt filename line n commentpos = search (at_rules, check_comment-AllAt)

check_comment_spacing-AllAt :
    (filename line : Text) (n : ℕ) → AllAt n (check_comment_spacing filename line n)
unfolding check_comment_spacing
check_comment_spacing-AllAt filename line n =
    AllAt-option (find line _) _ (λ commentpos. search (at_rules, check_comment_at-AllAt))

check_named-AllAt :
    (filename : Text) (n : ℕ) (category : Text) (confidence : ℕ) (message : Text)
    (groups : Option Groups)
    → AllAt n (check_named filename n category confidence message groups)
unfolding check_named
check_named-AllAt filename n category confidence message none = nil
check_named-AllAt filename n category confidence message (some groups) = search at_rules

check_operators-AllAt : (filename line : Text) (n : ℕ) → AllAt n (check_operators filename line n)
unfolding check_operators
check_operators-AllAt filename line n = search (at_rules, check_named-AllAt) depth 10

check_condition-AllAt :
    (filename line : Text) (n : ℕ) (groups : Groups)
    → AllAt n (check_condition filename line n groups)
unfolding check_condition
check_condition-AllAt filename line n groups = search at_rules

check_separators-AllAt : (filename line : Text) (n : ℕ) → AllAt n (check_separators filename line n)
unfolding check_separators
check_separators-AllAt filename line n = search (
  at_rules,
  AllAt-option (search_groups re_condition line) _ (check_condition-AllAt filename line n),
)

check_open_paren-AllAt : (filename line : Text) (n : ℕ) → AllAt n (check_open_paren filename line n)
unfolding check_open_paren
check_open_paren-AllAt filename line n = search at_rules

check_close_paren-AllAt :
    (filename line : Text) (n : ℕ) → AllAt n (check_close_paren filename line n)
unfolding check_close_paren
check_close_paren-AllAt filename line n = search at_rules

check_spacing_for_function_call-AllAt :
    (filename line : Text) (n : ℕ) → AllAt n (check_spacing_for_function_call filename line n)
unfolding check_spacing_for_function_call
check_spacing_for_function_call-AllAt filename line n =
    search (at_rules, check_open_paren-AllAt, check_close_paren-AllAt)

check_last_semicolon-AllAt :
    (filename line : Text) (n : ℕ) → AllAt n (check_last_semicolon filename line n)
unfolding check_last_semicolon
check_last_semicolon-AllAt filename line n = search at_rules

check_braces_and_semicolons-AllAt :
    (filename line : Text) (n : ℕ) → AllAt n (check_braces_and_semicolons filename line n)
unfolding check_braces_and_semicolons
check_braces_and_semicolons-AllAt filename line n = search (at_rules, check_last_semicolon-AllAt)

pub check_spacing-AllAt :
    (filename : Text) (clean_lines : CleansedLines) (n : ℕ)
    → AllAt n (check_spacing filename clean_lines n)
unfolding check_spacing
check_spacing-AllAt filename clean_lines n =
    search
      (
        at_rules, check_blank_line-AllAt, check_comment_spacing-AllAt, check_operators-AllAt,
        check_separators-AllAt, check_spacing_for_function_call-AllAt,
        check_braces_and_semicolons-AllAt,
      )
      depth 10
