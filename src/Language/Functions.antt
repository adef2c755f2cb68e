-- ===== src/Language/Functions.antt =====
-- clint.py, `CheckLanguage`: initializers, C types and C functions.
use dlmalloc.Prelude.{
  ℕ, Bool, false, not, ◌&&◌, ◌||◌, List, [], ◌∷◌, ◌++◌, Option, none, some, ◌==◌, nat_eq, text_eq,
  option_eq, if◌then◌else◌, length, drop,
}
use dlmalloc.Text.{Text, codes, starts_with, ends_with}
use dlmalloc.Regex.{
  Regex, ◌⨾◌, ◌⊕◌, star, group, line_start, line_end, word_edge, unless_ahead, matches, found,
}
use dlmalloc.Regex.Groups.{match_groups, search_groups, group_text}
use dlmalloc.Regex.Patterns.{lit, lit_ci, one_of, none_of, singles, words, space, plus, opt}
use dlmalloc.Report.{Event, error, when}
use dlmalloc.Regex.{word, in_class}
use dlmalloc.Brackets.{get_text_inside}

-- \bshort port\b
abbrev pub re_short_port : Regex
re_short_port = word_edge ⨾ lit "short port" ⨾ word_edge

-- \bunsigned short port\b
abbrev pub re_unsigned_short_port : Regex
re_unsigned_short_port = word_edge ⨾ lit "unsigned short port" ⨾ word_edge

-- \b(short|long(?! +double)|long long)\b
abbrev pub re_c_type : Regex
re_c_type =
    word_edge
    ⨾ group 1
        (lit "short" ⊕ lit "long" ⨾ unless_ahead (plus (lit " ") ⨾ lit "double") ⊕ lit "long long")
    ⨾ word_edge

-- snprintf\s*\(([^,]*),\s*([0-9]*)\s*,
abbrev pub re_snprintf : Regex
re_snprintf =
    lit "snprintf"
    ⨾ star space
    ⨾ lit "("
    ⨾ group 1 (star (none_of (singles ",")))
    ⨾ lit ","
    ⨾ star space
    ⨾ group 2 (star (one_of ((b'0', b'9') ∷ [])))
    ⨾ star space
    ⨾ lit ","

-- \bsprintf\b
abbrev pub re_sprintf : Regex
re_sprintf = word_edge ⨾ lit "sprintf" ⨾ word_edge

-- \b(strcpy|strcat)\b
abbrev pub re_strcpy : Regex
re_strcpy = word_edge ⨾ group 1 (lit "strc" ⨾ (lit "py" ⊕ lit "at")) ⨾ word_edge

-- \bsscanf\b
abbrev pub re_sscanf : Regex
re_sscanf = word_edge ⨾ lit "sscanf" ⨾ word_edge

-- \boperator\s*&\s*\(\s*\)
abbrev pub re_operator_and : Regex
re_operator_and =
    word_edge ⨾ lit "operator" ⨾ star space ⨾ lit "&" ⨾ star space ⨾ lit "(" ⨾ star space ⨾ lit ")"

-- \}\s*if\s*\(
abbrev pub re_brace_if : Regex
re_brace_if = lit "}" ⨾ star space ⨾ lit "if" ⨾ star space ⨾ lit "("

-- (?i)\b(string)?printf\s*\(
abbrev pub re_printf_call : Regex
re_printf_call =
    word_edge ⨾ opt (group 1 (lit_ci "string")) ⨾ lit_ci "printf" ⨾ star space ⨾ lit "("

-- ([\w.\->()]+)$
abbrev pub re_printf_argument : Regex
re_printf_argument = group 1 (plus (one_of (words ++ singles ".->()"))) ⨾ line_end

-- (?i)\b((?:string)?printf)\s*\(
abbrev pub re_printf_name : Regex
re_printf_name =
    word_edge ⨾ group 1 (opt (lit_ci "string") ⨾ lit_ci "printf") ⨾ star space ⨾ lit "("

-- memset\s*\(([^,]*),\s*([^,]*),\s*0\s*\)
abbrev pub re_memset : Regex
re_memset =
    lit "memset"
    ⨾ star space
    ⨾ lit "("
    ⨾ group 1 (star (none_of (singles ",")))
    ⨾ lit ","
    ⨾ star space
    ⨾ group 2 (star (none_of (singles ",")))
    ⨾ lit ","
    ⨾ star space
    ⨾ lit "0"
    ⨾ star space
    ⨾ lit ")"

-- ^''|-?[0-9]+|0x[0-9A-Fa-f]$
abbrev pub re_memset_value : Regex
re_memset_value =
    (line_start ⨾ lit "''"
      ⊕ opt (lit "-") ⨾ plus (one_of ((b'0', b'9') ∷ []))
      ⊕ lit "0x"
        ⨾ one_of (((b'0', b'9') ∷ []) ++ ((b'A', b'F') ∷ []) ++ ((b'a', b'f') ∷ []))
        ⨾ line_end)

-- The characters of a word at the start of a text.
unfoldable pub leading_word : Text → Text
leading_word [] = []
leading_word (c ∷ s) = if in_class word c then c ∷ leading_word s else []

-- A word that ends in `_`, and behind it the same word in parentheses.
unfoldable pub repeats_word : Text → Bool
repeats_word s =
    let member = leading_word s in
    ends_with member (codes "_")
    && starts_with (drop (length member) s) (codes "(" ++ member ++ codes ")")

-- \b([A-Za-z0-9_]*_)\(\1\), which has a back reference: the group is followed by a parenthesis,
-- so it is the whole word that begins where \b holds. `inside` tells that a word character stands
-- before.
unfoldable pub initializes_itself : Bool → Text → Bool
initializes_itself inside [] = false
initializes_itself inside (c ∷ line) =
    not inside && repeats_word (c ∷ line) || initializes_itself (in_class word c) line

unfoldable pub check_self_initialization : Text → ℕ → Text → List Event
check_self_initialization filename linenum line = when (initializes_itself false line) (
    error filename linenum (codes "runtime/init") 4
      (codes "You seem to be initializing a member variable with itself.")
    ∷ [])

unfoldable pub check_c_types : Text → ℕ → Text → List Event
check_c_types filename linenum line =
    if found re_short_port line
    then when (not (found re_unsigned_short_port line)) (
        error filename linenum (codes "runtime/int") 4
          (codes "Use \"unsigned short\" for ports, not \"short\"")
        ∷ [])
    else elim (search_groups re_c_type line) [
      | none ↦ []
      | some groups ↦
          error filename linenum (codes "runtime/int") 4
            (codes "Use int16/int64/etc, rather than the C type " ++ group_text 1 groups)
          ∷ []
    ]

unfoldable pub check_snprintf : Text → ℕ → Text → List Event
check_snprintf filename linenum line = elim (search_groups re_snprintf line) [
  | none ↦ []
  | some groups ↦ when (not (group_text 2 groups == codes "0")) (
      error filename linenum (codes "runtime/printf") 3 (
        codes "If you can, use sizeof("
        ++ group_text 1 groups
        ++ codes ") instead of "
        ++ group_text 2 groups
        ++ codes " as the 2nd arg to snprintf.")
      ∷ [])
]

unfoldable pub check_c_functions : Text → ℕ → Text → List Event
check_c_functions filename linenum line =
    when (found re_sprintf line) (
      error filename linenum (codes "runtime/printf") 5
        (codes "Never use sprintf.  Use snprintf instead.")
      ∷ [])
    ++ elim (search_groups re_strcpy line) [
      | none ↦ []
      | some groups ↦
          error filename linenum (codes "runtime/printf") 4
            (codes "Almost always, snprintf is better than " ++ group_text 1 groups)
          ∷ []
    ]
    ++ when (found re_sscanf line) (
        error filename linenum (codes "runtime/printf") 1
          (codes "sscanf can be ok, but is slow and can overflow buffers.")
        ∷ [])
    ++ when (found re_operator_and line) (
        error filename linenum (codes "runtime/operator") 4
          (codes "Unary operator& is dangerous.  Do not use it.")
        ∷ [])
    ++ when (found re_brace_if line) (
        error filename linenum (codes "readability/braces") 4
          (codes "Did you mean \"else if\"? If not, start a new line for \"if\".")
        ∷ [])

-- The arguments of a printf that are one expression.
unfoldable pub check_format_string : Text → ℕ → Text → Text → List Event
check_format_string filename linenum line printf_args =
    elim (match_groups re_printf_argument printf_args) [
      | none ↦ []
      | some groups ↦ elim (search_groups re_printf_name line) [
        | none ↦ []
        | some names ↦
            error filename linenum (codes "runtime/printf") 4 (
              codes "Potential format string bug. Do "
              ++ group_text 1 names
              ++ codes "(\"%s\", "
              ++ group_text 1 groups
              ++ codes ") instead.")
            ∷ []
      ]
    ]

-- The check of printf; none is the failed assertion of `_GetTextInside`.
unfoldable pub check_printf : Text → ℕ → Text → Option (List Event)
check_printf filename linenum line = elim (get_text_inside line re_printf_call) [
  | none ↦ none
  | some none ↦ some []
  | some (some printf_args) ↦
      some (if printf_args == [] then [] else check_format_string filename linenum line printf_args)
]

unfoldable pub check_memset : Text → ℕ → Text → List Event
check_memset filename linenum line = elim (search_groups re_memset line) [
  | none ↦ []
  | some groups ↦ when (not (matches re_memset_value (group_text 2 groups))) (
      error filename linenum (codes "runtime/memset") 4 (
        codes "Did you mean \"memset("
        ++ group_text 1 groups
        ++ codes ", 0, "
        ++ group_text 2 groups
        ++ codes ")\"?")
      ∷ [])
]
