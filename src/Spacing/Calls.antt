-- ===== src/Spacing/Calls.antt =====
-- clint.py: `CheckSpacingForFunctionCall`, and the end of `CheckSpacing`.
use dlmalloc.Prelude.{
  ℕ, not, ◌&&◌, List, [], ◌∷◌, ◌++◌, none, some, nat_eq, text_eq, option_eq, if◌then◌else◌,
}
use dlmalloc.Text.{Text, codes}
use dlmalloc.Regex.{
  Regex, ◌⨾◌, ◌⊕◌, star, group, line_start, line_end, word_edge, unless_ahead, found,
}
use dlmalloc.Regex.Groups.{search_groups, group_text}
use dlmalloc.Regex.Patterns.{lit, one_of, none_of, spaces, singles, words, space, dot, plus}
use dlmalloc.Report.{Event, error, when}

-- \bif\s*\((.*)\)\s*{
abbrev pub re_if : Regex
re_if =
    word_edge
    ⨾ lit "if"
    ⨾ star space
    ⨾ lit "("
    ⨾ group 1 (star dot)
    ⨾ lit ")"
    ⨾ star space
    ⨾ lit "{"

-- \bfor\s*\((.*)\)\s*{
abbrev pub re_for : Regex
re_for =
    word_edge
    ⨾ lit "for"
    ⨾ star space
    ⨾ lit "("
    ⨾ group 1 (star dot)
    ⨾ lit ")"
    ⨾ star space
    ⨾ lit "{"

-- \bwhile\s*\((.*)\)\s*[{;]
abbrev pub re_while : Regex
re_while =
    word_edge
    ⨾ lit "while"
    ⨾ star space
    ⨾ lit "("
    ⨾ group 1 (star dot)
    ⨾ lit ")"
    ⨾ star space
    ⨾ one_of (singles "{;")

-- \bswitch\s*\((.*)\)\s*{
abbrev pub re_switch : Regex
re_switch =
    word_edge
    ⨾ lit "switch"
    ⨾ star space
    ⨾ lit "("
    ⨾ group 1 (star dot)
    ⨾ lit ")"
    ⨾ star space
    ⨾ lit "{"

-- \b(if|for|while|switch|return|delete)\b
abbrev pub re_control : Regex
re_control =
    word_edge
    ⨾ group 1 (lit "if" ⊕ lit "for" ⊕ lit "while" ⊕ lit "switch" ⊕ lit "return" ⊕ lit "delete")
    ⨾ word_edge

--  \([^)]+\)\([^)]*(\)|,$)
abbrev pub re_function_pointer : Regex
re_function_pointer =
    lit " ("
    ⨾ plus (none_of (singles ")"))
    ⨾ lit ")("
    ⨾ star (none_of (singles ")"))
    ⨾ group 1 (lit ")" ⊕ lit "," ⨾ line_end)

--  \([^)]+\)\[[^\]]+\]
abbrev pub re_array_pointer : Regex
re_array_pointer =
    lit " (" ⨾ plus (none_of (singles ")")) ⨾ lit ")[" ⨾ plus (none_of (singles "]")) ⨾ lit "]"

-- \w\s*\(\s(?!\s*\\$)
abbrev pub re_space_in_call : Regex
re_space_in_call =
    one_of words ⨾ star space ⨾ lit "(" ⨾ space ⨾ unless_ahead (star space ⨾ lit "\\" ⨾ line_end)

-- \(\s+(?!(\s*\\)|\()
abbrev pub re_space_behind_paren : Regex
re_space_behind_paren =
    lit "(" ⨾ plus space ⨾ unless_ahead (group 1 (star space ⨾ lit "\\") ⊕ lit "(")

-- \w\s+\(
abbrev pub re_space_before_paren : Regex
re_space_before_paren = one_of words ⨾ plus space ⨾ lit "("

-- #\s*define|typedef
abbrev pub re_define : Regex
re_define = (lit "#" ⨾ star space ⨾ lit "define" ⊕ lit "typedef")

-- [^)]\s+\)\s*[^{\s]
abbrev pub re_space_before_close : Regex
re_space_before_close =
    none_of (singles ")") ⨾ plus space ⨾ lit ")" ⨾ star space ⨾ none_of (spaces ++ singles "{")

-- ^\s+\)
abbrev pub re_close_first : Regex
re_close_first = line_start ⨾ plus space ⨾ lit ")"

-- [^ ({]{
abbrev pub re_brace : Regex
re_brace = none_of (singles " ({") ⨾ lit "{"

-- }else
abbrev pub re_close_else : Regex
re_close_else = lit "}else"

-- \w\s+\[
abbrev pub re_bracket : Regex
re_bracket = one_of words ⨾ plus space ⨾ lit "["

-- delete\s+\[
abbrev pub re_delete_bracket : Regex
re_delete_bracket = lit "delete" ⨾ plus space ⨾ lit "["

-- :\s*;\s*$
abbrev pub re_empty_label : Regex
re_empty_label = lit ":" ⨾ star space ⨾ lit ";" ⨾ star space ⨾ line_end

-- ^\s*;\s*$
abbrev pub re_semicolon_only : Regex
re_semicolon_only = line_start ⨾ star space ⨾ lit ";" ⨾ star space ⨾ line_end

-- \s+;\s*$
abbrev pub re_space_semicolon : Regex
re_space_semicolon = plus space ⨾ lit ";" ⨾ star space ⨾ line_end

-- \bfor\b
abbrev pub re_for_word : Regex
re_for_word = word_edge ⨾ lit "for" ⨾ word_edge

-- The inside of the first control structure, or the whole line.
unfoldable pub function_call_text : List Regex → Text → Text
function_call_text [] line = line
function_call_text (pattern ∷ patterns) line = elim (search_groups pattern line) [
  | some groups ↦ group_text 1 groups
  | none ↦ function_call_text patterns line
]

abbrev pub control_patterns : List Regex
control_patterns = re_if ∷ re_for ∷ re_while ∷ re_switch ∷ []

unfoldable pub check_open_paren : Text → Text → ℕ → List Event
check_open_paren filename fncall linenum =
    if found re_space_in_call fncall
    then error filename linenum (codes "whitespace/parens") 4
        (codes "Extra space after ( in function call")
      ∷ []
    else when (found re_space_behind_paren fncall)
        (error filename linenum (codes "whitespace/parens") 2 (codes "Extra space after (") ∷ [])

unfoldable pub check_close_paren : Text → Text → ℕ → List Event
check_close_paren filename fncall linenum = when (found re_space_before_close fncall) (
    if found re_close_first fncall
    then error filename linenum (codes "whitespace/parens") 2
        (codes "Closing ) should be moved to the previous line")
      ∷ []
    else error filename linenum (codes "whitespace/parens") 2 (codes "Extra space before )") ∷ [])

-- `CheckSpacingForFunctionCall`
unfoldable pub check_spacing_for_function_call : Text → Text → ℕ → List Event
check_spacing_for_function_call filename line linenum =
    let fncall = function_call_text control_patterns line in
    when
      (not (found re_control fncall)
        && not (found re_function_pointer fncall)
        && not (found re_array_pointer fncall))
      (check_open_paren filename fncall linenum
        ++ when (found re_space_before_paren fncall && not (found re_define fncall)) (
            error filename linenum (codes "whitespace/parens") 4
              (codes "Extra space before ( in function call")
            ∷ [])
        ++ check_close_paren filename fncall linenum)

unfoldable pub check_last_semicolon : Text → Text → ℕ → List Event
check_last_semicolon filename line linenum =
    if found re_empty_label line
    then error filename linenum (codes "whitespace/semicolon") 5
        (codes "Semicolon defining empty statement. Use { } instead.")
      ∷ []
    else if found re_semicolon_only line
    then error filename linenum (codes "whitespace/semicolon") 5 (
        codes
          "Line contains only semicolon. If this should be an empty statement, use { } instead.")
      ∷ []
    else when (found re_space_semicolon line && not (found re_for_word line)) (
        error filename linenum (codes "whitespace/semicolon") 5 (
          codes
            "Extra space before last semicolon. If this should be an empty statement, use { } instead.")
        ∷ [])

unfoldable pub check_braces_and_semicolons : Text → Text → ℕ → List Event
check_braces_and_semicolons filename line linenum =
    when (found re_brace line)
      (error filename linenum (codes "whitespace/braces") 5 (codes "Missing space before {") ∷ [])
    ++ when (found re_close_else line) (
        error filename linenum (codes "whitespace/braces") 5 (codes "Missing space before else")
        ∷ [])
    ++ when (found re_bracket line && not (found re_delete_bracket line))
        (error filename linenum (codes "whitespace/braces") 5 (codes "Extra space before [") ∷ [])
    ++ check_last_semicolon filename line linenum
