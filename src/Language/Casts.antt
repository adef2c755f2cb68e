-- ===== src/Language/Casts.antt =====
-- clint.py, `CheckLanguage`: references, casts, strings and run-time types.
use dlmalloc.Prelude.{
  ℕ, ◌+◌, Bool, false, not, ◌&&◌, ◌||◌, List, [], ◌∷◌, ◌++◌, none, some, ◌==◌, nat_eq, text_eq,
  option_eq, if◌then◌else◌, ltb,
}
use dlmalloc.Text.{Text, codes}
use dlmalloc.Regex.{
  Regex, ◌⨾◌, ◌⊕◌, empty, star, group, line_start, line_end, word_edge, matches, found, group_of,
}
use dlmalloc.Regex.Groups.{match_groups, search_groups, group_text, count_matches}
use dlmalloc.Regex.Patterns.{lit, one_of, none_of, singles, words, digits, space, dot, plus, opt}
use dlmalloc.Report.{Event, error, when}
use dlmalloc.FileNames.{is_test_filename}

-- \([^()]*\b(?:[\w:]|<[^()]*>)+(\s?&|&\s?)\w+
abbrev pub re_reference : Regex
re_reference =
    lit "("
    ⨾ star (none_of (singles "()"))
    ⨾ word_edge
    ⨾ plus (one_of (words ++ singles ":") ⊕ lit "<" ⨾ star (none_of (singles "()")) ⨾ lit ">")
    ⨾ group 1 (opt space ⨾ lit "&" ⊕ lit "&" ⨾ opt space)
    ⨾ plus (one_of words)

-- \([^()]*\bconst\s+(?:typename\s+)?(?:struct\s+)?(?:[\w:]|<[^()]*>)+(\s?&|&\s?)\w+
abbrev pub re_const_before : Regex
re_const_before =
    lit "("
    ⨾ star (none_of (singles "()"))
    ⨾ word_edge
    ⨾ lit "const"
    ⨾ plus space
    ⨾ opt (lit "typename" ⨾ plus space)
    ⨾ opt (lit "struct" ⨾ plus space)
    ⨾ plus (one_of (words ++ singles ":") ⊕ lit "<" ⨾ star (none_of (singles "()")) ⨾ lit ">")
    ⨾ group 1 (opt space ⨾ lit "&" ⊕ lit "&" ⨾ opt space)
    ⨾ plus (one_of words)

-- \([^()]*\b(?:[\w:]|<[^()]*>)+\s+const(\s?&|&\s?)[\w]+
abbrev pub re_const_behind : Regex
re_const_behind =
    lit "("
    ⨾ star (none_of (singles "()"))
    ⨾ word_edge
    ⨾ plus (one_of (words ++ singles ":") ⊕ lit "<" ⨾ star (none_of (singles "()")) ⨾ lit ">")
    ⨾ plus space
    ⨾ lit "const"
    ⨾ group 1 (opt space ⨾ lit "&" ⊕ lit "&" ⨾ opt space)
    ⨾ plus (one_of words)

-- (swap|Swap|operator[<>][<>])\s*\(\s*(?:[\w:]|<.*>)+\s*&
abbrev pub re_swap : Regex
re_swap =
    group 1
      (lit "swap" ⊕ lit "Swap" ⊕ lit "operator" ⨾ one_of (singles "<>") ⨾ one_of (singles "<>"))
    ⨾ star space
    ⨾ lit "("
    ⨾ star space
    ⨾ plus (one_of (words ++ singles ":") ⊕ lit "<" ⨾ star dot ⨾ lit ">")
    ⨾ star space
    ⨾ lit "&"

-- (\bnew\s+)?\b(int|float|double|bool|char|int32|uint32|int64|uint64)\([^)]
abbrev pub re_conversion : Regex
re_conversion =
    opt (group 1 (word_edge ⨾ lit "new" ⨾ plus space))
    ⨾ word_edge
    ⨾ group 2 (
        lit "int"
        ⊕ lit "float"
        ⊕ lit "double"
        ⊕ lit "bool"
        ⊕ lit "char"
        ⊕ lit "int32"
        ⊕ lit "uint32"
        ⊕ lit "int64"
        ⊕ lit "uint64")
    ⨾ lit "("
    ⨾ none_of (singles ")")

-- ^\s*MOCK_(CONST_)?METHOD\d+(_T)?\(
abbrev pub re_mock_method : Regex
re_mock_method =
    line_start
    ⨾ star space
    ⨾ lit "MOCK_"
    ⨾ opt (group 1 (lit "CONST_"))
    ⨾ lit "METHOD"
    ⨾ plus (one_of digits)
    ⨾ opt (group 2 (lit "_T"))
    ⨾ lit "("

-- ^\s*MockCallback<.*>
abbrev pub re_mock_callback : Regex
re_mock_callback = line_start ⨾ star space ⨾ lit "MockCallback<" ⨾ star dot ⨾ lit ">"

-- (&\([^)]+\)[\w(])|(&(static|dynamic|reinterpret)_cast\b)
abbrev pub re_address_of_cast : Regex
re_address_of_cast =
    (group 1 (lit "&(" ⨾ plus (none_of (singles ")")) ⨾ lit ")" ⨾ one_of (words ++ singles "("))
      ⊕ group 2 (
          lit "&"
          ⨾ group 3 (lit "static" ⊕ lit "dynamic" ⊕ lit "reinterpret")
          ⨾ lit "_cast"
          ⨾ word_edge))

-- ((?:|static +)(?:|const +))string +([a-zA-Z0-9_:]+)\b(.*)
abbrev pub re_string_variable : Regex
re_string_variable =
    group 1 ((empty ⊕ lit "static" ⨾ plus (lit " ")) ⨾ (empty ⊕ lit "const" ⨾ plus (lit " ")))
    ⨾ lit "string"
    ⨾ plus (lit " ")
    ⨾ group 2 (
        plus (
          one_of
            (((b'a', b'z') ∷ []) ++ ((b'A', b'Z') ∷ []) ++ ((b'0', b'9') ∷ []) ++ singles "_:")))
    ⨾ word_edge
    ⨾ group 3 (star dot)

-- \s*(<.*>)?(::[a-zA-Z0-9_]+)?\s*\(([^"]|$)
abbrev pub re_string_function : Regex
re_string_function =
    star space
    ⨾ opt (group 1 (lit "<" ⨾ star dot ⨾ lit ">"))
    ⨾ opt (
        group 2 (
          lit "::"
          ⨾ plus (
              one_of (
                ((b'a', b'z') ∷ []) ++ ((b'A', b'Z') ∷ []) ++ ((b'0', b'9') ∷ []) ++ singles "_"))))
    ⨾ star space
    ⨾ lit "("
    ⨾ group 3 (none_of (singles "\"") ⊕ line_end)

-- \bdynamic_cast<
abbrev pub re_dynamic_cast : Regex
re_dynamic_cast = word_edge ⨾ lit "dynamic_cast<"

-- `line.split('{', 1)[0]`
unfoldable pub before_brace : Text → Text
before_brace [] = []
before_brace (c ∷ line) = if c == b'{' then [] else c ∷ before_brace line

unfoldable pub check_references : Text → ℕ → Text → List Event
check_references filename linenum line =
    let fnline = before_brace line in
    when
      (ltb (count_matches re_const_before fnline + count_matches re_const_behind fnline)
          (count_matches re_reference fnline)
        && not (found re_swap fnline))
      (error filename linenum (codes "runtime/references") 2
          (codes "Is this a non-const reference? If so, make const or use a pointer.")
        ∷ [])

unfoldable pub check_conversions : Text → ℕ → Text → List Event
check_conversions filename linenum line = elim (search_groups re_conversion line) [
  | none ↦ []
  | some groups ↦
      when
        (group_of 1 groups == none
          && not (matches re_mock_method line || matches re_mock_callback line))
        (error filename linenum (codes "readability/casting") 4 (
            codes "Using deprecated casting style.  Use static_cast<"
            ++ group_text 2 groups
            ++ codes ">(...) instead")
          ∷ [])
]

-- `CheckCStyleCast`, which returns False before it looks at anything.
unfoldable pub check_c_style_cast : Text → ℕ → Text → Bool × List Event
check_c_style_cast filename linenum line = (false, [])

-- The three calls of CheckCStyleCast.
unfoldable pub check_casts : Text → ℕ → Text → List Event
check_casts filename linenum line =
    let (const_cast, events) = check_c_style_cast filename linenum line in
    (check_c_style_cast filename linenum line).1
    ++ events
    ++ (if const_cast then [] else (check_c_style_cast filename linenum line).1)

unfoldable pub check_cast_address : Text → ℕ → Text → List Event
check_cast_address filename linenum line = when (found re_address_of_cast line) (
    error filename linenum (codes "runtime/casting") 4 (
      codes
        "Are you taking an address of a cast?  This is dangerous: could be a temp var.  Take the address before doing the cast, rather than after")
    ∷ [])

unfoldable pub check_string_constants : Text → ℕ → Text → List Event
check_string_constants filename linenum line = elim (match_groups re_string_variable line) [
  | none ↦ []
  | some groups ↦ when (not (matches re_string_function (group_text 3 groups))) (
      error filename linenum (codes "runtime/string") 4 (
        codes "For a static/global string constant, use a C style string instead: \""
        ++ group_text 1 groups
        ++ codes "char "
        ++ group_text 2 groups
        ++ codes "[]\".")
      ∷ [])
]

unfoldable pub check_dynamic_cast : Text → ℕ → Text → List Event
check_dynamic_cast filename linenum line =
    when (found re_dynamic_cast line && not (is_test_filename filename)) (
      error filename linenum (codes "runtime/rtti") 5 (
        codes
          "Do not use dynamic_cast<>.  If you need to cast within a class hierarchy, use static_cast<> to upcast.  Google doesn't support RTTI.")
      ∷ [])
