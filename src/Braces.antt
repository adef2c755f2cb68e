-- ===== src/Braces.antt =====
-- clint.py, `CheckBraces`. It reads `clean_lines.elided`. The checks of an else are none where
-- `CloseExpression` raises IndexError.
pub mod Joining
use dlmalloc.Prelude.{
  ℕ, zero, suc, ◌+◌, Bool, true, false, not, ◌&&◌, ◌||◌, List, [], ◌∷◌, ◌++◌, Option, none, some,
  ◌==◌, nat_eq, if◌then◌else◌, ltb, length, drop, get_or, ℤ, pos, negsuc,
}
use dlmalloc.Text.{Text, codes, count, find, occurs}
use dlmalloc.Regex.{Regex, ◌⨾◌, ◌⊕◌, star, group, line_end, word_edge, matches, found}
use dlmalloc.Regex.Patterns.{lit, one_of, none_of, spaces, singles, space, dot, plus}
use dlmalloc.Report.{Event, error, when}
use dlmalloc.Brackets.{close_expression, slice_end}
use dlmalloc.LineChecks.{get_previous_non_blank_line}

-- \s*{\s*$
abbrev pub re_brace_alone : Regex
re_brace_alone = star space ⨾ lit "{" ⨾ star space ⨾ line_end

-- [;:}{]\s*$
abbrev pub re_statement_end : Regex
re_statement_end = one_of (singles ";:}{") ⨾ star space ⨾ line_end

-- \s*else\s*
abbrev pub re_else_first : Regex
re_else_first = star space ⨾ lit "else" ⨾ star space

-- \s*}\s*$
abbrev pub re_closing_alone : Regex
re_closing_alone = star space ⨾ lit "}" ⨾ star space ⨾ line_end

-- }\s*else[^{]*$
abbrev pub re_brace_before_else : Regex
re_brace_before_else = lit "}" ⨾ star space ⨾ lit "else" ⨾ star (none_of (singles "{")) ⨾ line_end

-- [^}]*else\s*{
abbrev pub re_brace_after_else : Regex
re_brace_after_else = star (none_of (singles "}")) ⨾ lit "else" ⨾ star space ⨾ lit "{"

-- }\s*else if([^{]*)$
abbrev pub re_else_if_open : Regex
re_else_if_open =
    lit "}" ⨾ star space ⨾ lit "else if" ⨾ group 1 (star (none_of (singles "{"))) ⨾ line_end

-- \belse [^\s{]
abbrev pub re_else_clause : Regex
re_else_clause = word_edge ⨾ lit "else " ⨾ none_of (spaces ++ singles "{")

-- \belse if\b
abbrev pub re_else_if : Regex
re_else_if = word_edge ⨾ lit "else if" ⨾ word_edge

-- \s*do [^\s{]
abbrev pub re_do_line : Regex
re_do_line = star space ⨾ lit "do " ⨾ none_of (spaces ++ singles "{")

-- \s+{.*}\s*;
abbrev pub re_indented_block : Regex
re_indented_block = plus space ⨾ lit "{" ⨾ star dot ⨾ lit "}" ⨾ star space ⨾ lit ";"

-- {.*}\s*;
abbrev pub re_block_semicolon : Regex
re_block_semicolon = lit "{" ⨾ star dot ⨾ lit "}" ⨾ star space ⨾ lit ";"

-- struct|class|enum|\s*=\s*{
abbrev pub re_declares : Regex
re_declares =
    (lit "struct" ⊕ lit "class" ⊕ lit "enum" ⊕ star space ⨾ lit "=" ⨾ star space ⨾ lit "{")

-- `GetPreviousNonBlankLine(clean_lines, linenum)`, for a number that may be -1
abbrev pub previous_line : List Text → ℤ → Text × ℤ
previous_line elided (pos n) = get_previous_non_blank_line elided n
previous_line elided (negsuc n) = ([], negsuc 0)

-- The `while True` loop, which puts the lines above in front of a block that ends in a
-- semicolon; none if it has not ended within the fuel.
unfoldable pub join_lines : ℕ → List Text → ℤ → Text → Option Text
join_lines zero elided prevlinenum line = none
join_lines (suc fuel) elided prevlinenum line =
    let (prevline, above) = previous_line elided prevlinenum in
    let later = join_lines fuel elided above (prevline ++ line) in
    if matches re_indented_block line && count prevline (codes ";") == 0 then later else some line

-- The line above is not the end of a statement or of a block.
unfoldable pub check_opening_brace : Text → List Text → ℕ → Text → List Event
check_opening_brace filename elided linenum line =
    when
      (matches re_brace_alone line
        && not (found re_statement_end (get_previous_non_blank_line elided linenum).0))
      (error filename linenum (codes "whitespace/braces") 4
          (codes "{ should almost always be at the end of the previous line")
        ∷ [])

unfoldable pub check_else_line : Text → List Text → ℕ → Text → List Event
check_else_line filename elided linenum line =
    when
      (matches re_else_first line
        && matches re_closing_alone (get_previous_non_blank_line elided linenum).0)
      (error filename linenum (codes "whitespace/newline") 4
          (codes "An else should appear on the same line as the preceding }")
        ∷ [])

abbrev unbalanced_else : Text → ℕ → List Event
unbalanced_else filename linenum =
    error filename linenum (codes "readability/braces") 5
      (codes "If an else has a brace on one side, it should have it on both")
    ∷ []

-- `s.find(p, start)`
abbrev find_after : Text → Text → ℕ → Option ℕ
find_after s p start = elim (find (drop start s) p) [ none ↦ none | some i ↦ some (start + i) ]

-- The place of the parenthesis behind `else if`, if it is above 0.
abbrev pub condition_start : Text → Option ℕ
condition_start line = elim (find line (codes "else if")) [
  | none ↦ none
  | some i ↦ elim (find_after line (codes "(") i) [
    | none ↦ none
    | some p ↦ if ltb 0 p then some p else none
  ]
]

-- An `else if` whose condition may go on over lines.
unfoldable pub check_else_if : Text → List Text → ℕ → Text → Option (List Event)
check_else_if filename elided linenum line = elim (condition_start line) [
  | none ↦ some []
  | some p ↦ elim (close_expression elided linenum p) [
    | none ↦ none
    | some (endline, endlinenum, endpos) ↦ some (
        when (not (occurs (codes "{") (drop (slice_end (length endline) endpos) endline)))
          (unbalanced_else filename linenum))
  ]
]

unfoldable pub check_else_braces : Text → List Text → ℕ → Text → Option (List Event)
check_else_braces filename elided linenum line =
    if found re_brace_before_else line || matches re_brace_after_else line
    then if found re_else_if_open line
      then check_else_if filename elided linenum line
      else some (unbalanced_else filename linenum)
    else some []

unfoldable pub check_one_line_clauses : Text → ℕ → Text → List Event
check_one_line_clauses filename linenum line =
    when (found re_else_clause line && not (found re_else_if line)) (
      error filename linenum (codes "whitespace/newline") 4
        (codes "Else clause should never be on same line as else (use 2 lines)")
      ∷ [])
    ++ when (matches re_do_line line) (
        error filename linenum (codes "whitespace/newline") 4
          (codes "do/while clauses should not be on a single line")
        ∷ [])

unfoldable pub check_block_semicolon : Text → ℕ → Text → List Event
check_block_semicolon filename linenum joined =
    when
      (found re_block_semicolon joined
        && count joined (codes "{") == count joined (codes "}")
        && not (found re_declares joined))
      (error filename linenum (codes "readability/braces") 4 (codes "You don't need a ; after a }")
        ∷ [])

-- What CheckBraces comes to: its reports, the IndexError of CloseExpression, or that the loop has
-- not ended within the fuel.
pub data Outcome : Type 0 where
  reported : List Event → Outcome
  index_error : Outcome
  unended : Outcome

-- `CheckBraces`
unfoldable pub check_braces : ℕ → Text → List Text → ℕ → Outcome
check_braces fuel filename elided linenum =
    let line = get_or elided linenum [] in
    elim (check_else_braces filename elided linenum line) [
      | none ↦ index_error
      | some else_events ↦ elim (join_lines fuel elided (pos linenum) line) [
        | none ↦ unended
        | some joined ↦ reported (
            check_opening_brace filename elided linenum line
            ++ check_else_line filename elided linenum line
            ++ else_events
            ++ check_one_line_clauses filename linenum line
            ++ check_block_semicolon filename linenum joined)
      ]
    ]
