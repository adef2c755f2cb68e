-- ===== src/Spacing/Operators.antt =====
-- clint.py, `CheckSpacing`: spaces around operators, inside parentheses, and behind commas.
use dlmalloc.Prelude.{
  ℕ, ◌+◌, not, ◌&&◌, ◌||◌, List, [], ◌∷◌, ◌++◌, Option, none, some, ◌==◌, nat_eq, text_eq,
  option_eq, if◌then◌else◌, ltb, length,
}
use dlmalloc.Text.{Text, codes}
use dlmalloc.Regex.{Regex, ◌⨾◌, ◌⊕◌, star, group, line_end, word_edge, found, sub}
use dlmalloc.Regex.Groups.{Groups, search_groups, group_text}
use dlmalloc.Regex.Patterns.{lit, one_of, none_of, spaces, singles, words, space, dot, plus}
use dlmalloc.Report.{Event, error, when}

-- operator(==|!=|<|<<|<=|>=|>>|>)\(
abbrev pub re_operator_method : Regex
re_operator_method =
    lit "operator"
    ⨾ group 1 (lit "==" ⊕ lit "!=" ⊕ lit "<" ⊕ lit "<<" ⊕ lit "<=" ⊕ lit ">=" ⊕ lit ">>" ⊕ lit ">")
    ⨾ lit "("

-- [\w.]=[\w.]
abbrev pub re_assignment : Regex
re_assignment = one_of (words ++ singles ".") ⨾ lit "=" ⨾ one_of (words ++ singles ".")

-- \b(if|while)
abbrev pub re_if_while : Regex
re_if_while = word_edge ⨾ group 1 (lit "if" ⊕ lit "while") ⨾ lit " "

-- [^<>=!\s](==|!=|<=|>=)[^<>=!\s]
abbrev pub re_comparison : Regex
re_comparison =
    none_of (spaces ++ singles "<>=!")
    ⨾ group 1 (lit "==" ⊕ lit "!=" ⊕ lit "<=" ⊕ lit ">=")
    ⨾ none_of (spaces ++ singles "<>=!")

-- <[^<]*,\s*$
abbrev pub re_template_spill : Regex
re_template_spill = lit "<" ⨾ star (none_of (singles "<")) ⨾ lit "," ⨾ star space ⨾ line_end

-- [^<>=!\s](<)[^<>=!\s]([^>]|->)*$
abbrev pub re_less : Regex
re_less =
    none_of (spaces ++ singles "<>=!")
    ⨾ group 1 (lit "<")
    ⨾ none_of (spaces ++ singles "<>=!")
    ⨾ star (group 2 (none_of (singles ">") ⊕ lit "->"))
    ⨾ line_end

-- [^0-9\s](<<|>>)[^0-9\s]
abbrev pub re_shift : Regex
re_shift =
    none_of (((b'0', b'9') ∷ []) ++ spaces)
    ⨾ group 1 (lit "<<" ⊕ lit ">>")
    ⨾ none_of (((b'0', b'9') ∷ []) ++ spaces)

-- (!\s|~\s|[\s]--[\s;]|[\s]\+\+[\s;])
abbrev pub re_unary : Regex
re_unary = group 1 (
    lit "!" ⨾ space
    ⊕ lit "~" ⨾ space
    ⊕ space ⨾ lit "--" ⨾ one_of (spaces ++ singles ";")
    ⊕ space ⨾ lit "++" ⨾ one_of (spaces ++ singles ";"))

--  (if\(|for\(|while\(|switch\()
abbrev pub re_keyword_paren : Regex
re_keyword_paren = lit " " ⨾ group 1 (lit "if(" ⊕ lit "for(" ⊕ lit "while(" ⊕ lit "switch(")

-- \b(if|for|while|switch)\s*\(([ ]*)(.).*[^ ]+([ ]*)\)\s*{\s*$
abbrev pub re_condition : Regex
re_condition =
    word_edge
    ⨾ group 1 (lit "if" ⊕ lit "for" ⊕ lit "while" ⊕ lit "switch")
    ⨾ star space
    ⨾ lit "("
    ⨾ group 2 (star (lit " "))
    ⨾ group 3 dot
    ⨾ star dot
    ⨾ plus (none_of (singles " "))
    ⨾ group 4 (star (lit " "))
    ⨾ lit ")"
    ⨾ star space
    ⨾ lit "{"
    ⨾ star space
    ⨾ line_end

-- \bfor\s*\(.*; \)
abbrev pub re_for_open : Regex
re_for_open = word_edge ⨾ lit "for" ⨾ star space ⨾ lit "(" ⨾ star dot ⨾ lit "; )"

-- ,[^\s]
abbrev pub re_comma : Regex
re_comma = lit "," ⨾ none_of spaces

-- ;[^\s};\\)/]
abbrev pub re_semicolon : Regex
re_semicolon = lit ";" ⨾ none_of (spaces ++ singles "};\\)/")

-- `re.sub`, whose replacement keeps its backslash
unfoldable pub without_operators : Text → Text
without_operators line = sub re_operator_method (codes "operator\\(") line

-- A report that names the first group of a search.
unfoldable pub check_named : Text → ℕ → Text → ℕ → Text → Option Groups → List Event
check_named filename linenum category confidence message none = []
check_named filename linenum category confidence message (some groups) =
    error filename linenum category confidence (message ++ group_text 1 groups) ∷ []

-- The search for a comparison, and for a `<` with no `>` if there is none.
unfoldable pub search_comparison : Text → Option Groups
search_comparison line = elim (search_groups re_comparison line) [
  | some groups ↦ some groups
  | none ↦ if found re_template_spill line then none else search_groups re_less line
]

-- The spaces inside the parentheses of a condition.
unfoldable pub check_condition : Text → Text → ℕ → Groups → List Event
check_condition filename line linenum groups =
    let opening = length (group_text 2 groups) in
    let closing = length (group_text 4 groups) in
    let is_for =
      (group_text 3 groups == codes ";" && opening == 1 + closing)
      || (opening == 0 && found re_for_open line) in
    when (not (opening == closing) && not is_for) (
      error filename linenum (codes "whitespace/parens") 5
        (codes "Mismatching spaces inside () in " ++ group_text 1 groups)
      ∷ [])
    ++ when (ltb 1 opening) (
        error filename linenum (codes "whitespace/parens") 5
          (codes "Should have zero or one spaces inside ( and ) in " ++ group_text 1 groups)
        ∷ [])

unfoldable pub check_operators : Text → Text → ℕ → List Event
check_operators filename line linenum =
    when (found re_assignment line && not (found re_if_while line)) (
      error filename linenum (codes "whitespace/operators") 4 (codes "Missing spaces around =")
      ∷ [])
    ++ check_named filename linenum (codes "whitespace/operators") 3
        (codes "Missing spaces around ") (search_comparison line)
    ++ check_named filename linenum (codes "whitespace/operators") 3
        (codes "Missing spaces around ") (search_groups re_shift line)
    ++ check_named filename linenum (codes "whitespace/operators") 4
        (codes "Extra space for operator ") (search_groups re_unary line)
    ++ check_named filename linenum (codes "whitespace/parens") 5
        (codes "Missing space before ( in ") (search_groups re_keyword_paren line)

unfoldable pub check_separators : Text → Text → ℕ → List Event
check_separators filename line linenum =
    elim (search_groups re_condition line) [
      | none ↦ []
      | some groups ↦ check_condition filename line linenum groups
    ]
    ++ when (found re_comma line)
        (error filename linenum (codes "whitespace/comma") 3 (codes "Missing space after ,") ∷ [])
    ++ when (found re_semicolon line) (
        error filename linenum (codes "whitespace/semicolon") 3 (codes "Missing space after ;")
        ∷ [])
