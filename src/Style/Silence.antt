-- ===== src/Style/Silence.antt =====
-- clint.py: the reports of CheckStyle are on the line that it checks, and a NOLINT comment drops them.
use mathlib.Core.Path.{subst}
use dlmalloc.Prelude.{
  ◌⊎◌, ℕ, ◌≡◌, refl, sym, Bool, true, List, [], ◌∷◌, ◌++◌, Option, none, some, pos, arith,
  Bool-cases, Option-cases, inl, inr, get_or, ◌||◌, text_eq, int_beq_iff,
}
use dlmalloc.Text.{Text}
use dlmalloc.Unicode.{Unicode}
use dlmalloc.Report.{Diagnostic, Event, suppress}
use dlmalloc.Report.Lines.{AllAt, nil, cons, at_rules}
use dlmalloc.Cleanse.{CleansedLines}
use dlmalloc.FileNames.{Paths}
use dlmalloc.Classes.{ClassInfo}
use dlmalloc.Classes.Sections.{section_of, check_section_spacing}
use dlmalloc.MacroChecks.{find_macro, find_operator, check_macros, operators, check_check}
use dlmalloc.Braces.{
  check_opening_brace, check_else_line, condition_start, re_brace_before_else, re_brace_after_else,
  re_else_if_open, check_else_if, check_else_braces, check_one_line_clauses, check_block_semicolon,
  Outcome, reported, index_error, unended, check_braces, join_lines,
}
use dlmalloc.Spacing.Lines.{check_spacing-AllAt}
use dlmalloc.Brackets.{close_expression}
use dlmalloc.Regex.{found, matches}
use dlmalloc.Nolint.{
  Suppressions, add_suppression, is_error_suppressed_by_nolint, parse_nolint_suppressions,
}
use dlmalloc.Nolint.Parsing.{suppressed-add}
use dlmalloc.Session.{Session, should_print_error, handle_error, run_event, run_events}
use dlmalloc.Style.{
  Widths, check_indent, check_length, check_commands, check_sections, header_guard_test,
  check_style,
}

check_indent-AllAt :
    (filename line cleansed_line : Text) (n : ℕ)
    → AllAt n (check_indent filename line cleansed_line n)
unfolding check_indent
check_indent-AllAt filename line cleansed_line n = search at_rules

check_length-AllAt :
    (w : Widths) (filename line : Text) (n : ℕ) (is_guard : Bool)
    → AllAt n (check_length w filename line n is_guard)
unfolding check_length
check_length-AllAt w filename line n is_guard = search at_rules

check_commands-AllAt :
    (filename line previous : Text) (n : ℕ) → AllAt n (check_commands filename line previous n)
unfolding check_commands
check_commands-AllAt filename line previous n = search at_rules

check_opening_brace-AllAt :
    (filename : Text) (elided : List Text) (n : ℕ) (line : Text)
    → AllAt n (check_opening_brace filename elided n line)
unfolding check_opening_brace
check_opening_brace-AllAt filename elided n line = search at_rules

check_else_line-AllAt :
    (filename : Text) (elided : List Text) (n : ℕ) (line : Text)
    → AllAt n (check_else_line filename elided n line)
unfolding check_else_line
check_else_line-AllAt filename elided n line = search at_rules

check_one_line_clauses-AllAt :
    (filename : Text) (n : ℕ) (line : Text) → AllAt n (check_one_line_clauses filename n line)
unfolding check_one_line_clauses
check_one_line_clauses-AllAt filename n line = search at_rules

check_block_semicolon-AllAt :
    (filename : Text) (n : ℕ) (joined : Text) → AllAt n (check_block_semicolon filename n joined)
unfolding check_block_semicolon
check_block_semicolon-AllAt filename n joined = search at_rules

-- The events of a check that may raise an exception.
abbrev AllIn : ℕ → Option (List Event) → Type 0
AllIn n none = Unit
AllIn n (some events) = AllAt n events

check_else_if-AllIn :
    (filename : Text) (elided : List Text) (n : ℕ) (line : Text)
    → AllIn n (check_else_if filename elided n line)
unfolding check_else_if
check_else_if-AllIn filename elided n line = elim (Option-cases (condition_start line)) [
  | inl e ↦ rw (check_else_if, e) nil
  | inr (p, e) ↦ elim (Option-cases (close_expression elided n p)) [
    | inl f ↦ rw (check_else_if, e, f) tt
    | inr (closing, f) ↦ rw (check_else_if, e, f) (search at_rules)
  ]
]

check_else_braces-AllIn :
    (filename : Text) (elided : List Text) (n : ℕ) (line : Text)
    → AllIn n (check_else_braces filename elided n line)
unfolding check_else_braces
check_else_braces-AllIn filename elided n line =
    let inner = check_else_if-AllIn filename elided n line in
    elim (Bool-cases (found re_brace_before_else line || matches re_brace_after_else line)) [
      | inr e ↦ rw (check_else_braces, e) nil
      | inl e ↦ elim (Bool-cases (found re_else_if_open line)) [
        | inl f ↦ rw (check_else_braces, e, f) inner
        | inr f ↦ rw (check_else_braces, e, f) (search at_rules)
      ]
    ]

-- The same for CheckBraces.
abbrev AllOf : ℕ → Outcome → Type 0
AllOf n (reported events) = AllAt n events
AllOf n index_error = Unit
AllOf n unended = Unit

Outcome-cases :
    (o : Outcome)
    → ((events : List Event) × (o ≡ reported events)) ⊎ (o ≡ index_error) ⊎ (o ≡ unended)
Outcome-cases (reported events) = inl (events, refl)
Outcome-cases index_error = inr (inl refl)
Outcome-cases unended = inr (inr refl)

check_braces-AllOf :
    (fuel : ℕ) (filename : Text) (elided : List Text) (n : ℕ)
    → AllOf n (check_braces fuel filename elided n)
unfolding check_braces
check_braces-AllOf fuel filename elided n =
    let line = get_or elided n [] in
    let inner = check_else_braces-AllIn filename elided n line in
    elim (Option-cases (check_else_braces filename elided n line)) [
      | inl e ↦ rw (check_braces, e) tt
      | inr (else_events, e) ↦
          let at_else : AllAt n else_events = subst (AllIn n) e inner in
          elim (Option-cases (join_lines fuel elided (pos n) line)) [
            | inl f ↦ rw (check_braces, e, f) tt
            | inr (joined, f) ↦
                rw (check_braces, e, f)
                  (search
                    (
                      at_rules, check_opening_brace-AllAt, check_else_line-AllAt,
                      check_one_line_clauses-AllAt, check_block_semicolon-AllAt,
                    )
                    depth 10)
          ]
    ]

check_check-AllAt :
    (filename raw_line line : Text) (n : ℕ) → AllAt n (check_check filename raw_line line n)
unfolding check_check
check_check-AllAt filename raw_line line n =
    elim (Option-cases (find_macro check_macros raw_line)) [
      | inl e ↦ rw (check_check, e) nil
      | inr (macro, e) ↦ elim (Option-cases (find_operator operators macro line)) [
        | inl f ↦ rw (check_check, e, f) nil
        | inr (operator, f) ↦ rw (check_check, e, f) (search at_rules)
      ]
    ]

check_section_spacing-AllAt :
    (filename : Text) (lines : List Text) (class_info : ClassInfo) (n : ℕ)
    → AllAt n (check_section_spacing filename lines class_info n)
unfolding check_section_spacing
check_section_spacing-AllAt filename lines class_info n =
    elim (Option-cases (section_of (get_or lines n []))) [
      | inl e ↦ rw (check_section_spacing, e) (search at_rules)
      | inr (section, e) ↦ rw (check_section_spacing, e) (search at_rules)
    ]

check_sections-AllAt :
    (filename : Text) (lines : List Text) (stack : List ClassInfo) (n : ℕ)
    → AllAt n (check_sections filename lines stack n)
check_sections-AllAt filename lines [] n = nil
check_sections-AllAt filename lines (classinfo ∷ outer) n =
    check_section_spacing-AllAt filename lines classinfo n

check_style-AllIn :
    (u : Unicode) (w : Widths) (fuel : ℕ) (os : Paths) (filename ext : Text)
    (clean_lines : CleansedLines) (n : ℕ) (stack : List ClassInfo)
    → AllIn n (check_style u w fuel os filename ext clean_lines n stack)
unfolding check_style
check_style-AllIn u w fuel os filename ext clean_lines n stack =
    let inner = check_braces-AllOf fuel filename clean_lines.elided n in
    elim (Option-cases
      (header_guard_test u fuel os filename ext (get_or clean_lines.raw_lines n []))) [
        | inl e ↦ rw (check_style, e) tt
        | inr (is_guard, e) ↦
            elim (Outcome-cases (check_braces fuel filename clean_lines.elided n)) [
              | inr (inl f) ↦ rw (check_style, e, f) tt
              | inr (inr f) ↦ rw (check_style, e, f) tt
              | inl (brace_events, f) ↦
                  let at_braces : AllAt n brace_events = subst (AllOf n) f inner in
                  rw (check_style, e, f)
                    (search
                      (
                        at_rules, check_indent-AllAt, check_length-AllAt, check_commands-AllAt,
                        check_spacing-AllAt, check_check-AllAt, check_sections-AllAt,
                      )
                      depth 14)
            ]
      ]

handle_error-dropped :
    (d : Diagnostic) (s : Session)
    → is_error_suppressed_by_nolint d.category d.linenum s.suppressions ≡ true
    → handle_error d s ≡ some s
unfolding handle_error should_print_error
handle_error-dropped d s h = rw (handle_error, should_print_error, h) refl

-- Suppressed reports change nothing.
run_events-dropped :
    (n : ℕ) (events : List Event) (s : Session)
    → AllAt n events
    → ((category : Text) → is_error_suppressed_by_nolint category (pos n) s.suppressions ≡ true)
    → run_events events s ≡ some s
unfolding run_events run_event
run_events-dropped n _ s nil h = refl
run_events-dropped n _ s (cons d events e rest) h =
    let dropped = handle_error-dropped d s (
      subst (λ l. is_error_suppressed_by_nolint d.category l s.suppressions ≡ true) (sym e)
        (h d.category)) in
    rw (run_events, run_event, dropped) (run_events-dropped n events s rest h)

suppressed_everywhere :
    (n : ℕ) (category : Text) (table : Suppressions)
    → is_error_suppressed_by_nolint category (pos n) (add_suppression none (pos n) table) ≡ true
suppressed_everywhere n category table =
    ground (arith, suppressed-add none (pos n) (pos n) category table, int_beq_iff (pos n) (pos n))

-- A line whose comment is NOLINT, for no category or for (*), is silent: whatever CheckStyle
-- reports on it, with the checks of braces, spacing, macros and sections that it calls, running
-- the suppression and then the reports records the suppression, and prints and counts nothing.
pub check_style-silent :
    (u : Unicode) (w : Widths) (fuel : ℕ) (os : Paths) (filename ext : Text)
    (clean_lines : CleansedLines) (n : ℕ) (stack : List ClassInfo) (events : List Event)
    (s : Session)
    → parse_nolint_suppressions filename (get_or clean_lines.raw_lines n []) n
      ≡ suppress none n ∷ []
    → check_style u w fuel os filename ext clean_lines n stack ≡ some events
    → run_events
        (parse_nolint_suppressions filename (get_or clean_lines.raw_lines n []) n ++ events)
        s
      ≡ some (record s { suppressions = add_suppression none (pos n) s.suppressions })
unfolding run_events run_event
check_style-silent u w fuel os filename ext clean_lines n stack events s nolint h =
    let at_style : AllAt n events =
      subst (AllIn n) h (check_style-AllIn u w fuel os filename ext clean_lines n stack) in
    rw (nolint, run_events, run_event)
      (run_events-dropped n events
        (record s { suppressions = add_suppression none (pos n) s.suppressions }) at_style
        (λ category. suppressed_everywhere n category s.suppressions))
