-- ===== src/Classes/Constructs.antt =====
-- clint.py, `CheckForNonStandardConstructs`: the checks of one line that stand before the tracking
-- of classes, and the whole handler.
use dlmalloc.Prelude.{ℕ, List, [], ◌∷◌, ◌++◌, get_or}
use dlmalloc.Text.{Text, codes, replace}
use dlmalloc.Regex.{Regex, ◌⨾◌, ◌⊕◌, star, group, line_start, word_edge, matches, found}
use dlmalloc.Regex.Patterns.{
  lit, one_of, none_of, spaces, singles, words, digits, space, dot, plus, opt,
}
use dlmalloc.Report.{Event, error, when}
use dlmalloc.Classes.{ClassInfo, track_classes}

-- printf\s*\(.*".*%[-+ ]?\d*q
abbrev pub re_printf_q : Regex
re_printf_q =
    lit "printf"
    ⨾ star space
    ⨾ lit "("
    ⨾ star dot
    ⨾ lit "\""
    ⨾ star dot
    ⨾ lit "%"
    ⨾ opt (one_of (singles "-+ "))
    ⨾ star (one_of digits)
    ⨾ lit "q"

-- printf\s*\(.*".*%\d+\$
abbrev pub re_printf_position : Regex
re_printf_position =
    lit "printf"
    ⨾ star space
    ⨾ lit "("
    ⨾ star dot
    ⨾ lit "\""
    ⨾ star dot
    ⨾ lit "%"
    ⨾ plus (one_of digits)
    ⨾ lit "$"

-- ("|').*\\(%|\[|\(|{)
abbrev pub re_undefined_escape : Regex
re_undefined_escape =
    group 1 (one_of (singles "\"'")) ⨾ star dot ⨾ lit "\\" ⨾ group 2 (one_of (singles "%[({"))

-- \b(const|volatile|void|char|short|int|long|float|double|signed|unsigned|schar|u?int8|u?int16|u?int32|u?int64)\s+(auto|register|static|extern|typedef)\b
abbrev pub re_storage_class : Regex
re_storage_class =
    word_edge
    ⨾ group 1 (
        lit "const"
        ⊕ lit "volatile"
        ⊕ lit "void"
        ⊕ lit "char"
        ⊕ lit "short"
        ⊕ lit "int"
        ⊕ lit "long"
        ⊕ lit "float"
        ⊕ lit "double"
        ⊕ lit "signed"
        ⊕ lit "unsigned"
        ⊕ lit "schar"
        ⊕ opt (lit "u") ⨾ lit "int8"
        ⊕ opt (lit "u") ⨾ lit "int16"
        ⊕ opt (lit "u") ⨾ lit "int32"
        ⊕ opt (lit "u") ⨾ lit "int64")
    ⨾ plus space
    ⨾ group 2 (lit "auto" ⊕ lit "register" ⊕ lit "static" ⊕ lit "extern" ⊕ lit "typedef")
    ⨾ word_edge

-- \s*#\s*endif\s*[^/\s]+
abbrev pub re_endif_text : Regex
re_endif_text =
    star space
    ⨾ lit "#"
    ⨾ star space
    ⨾ lit "endif"
    ⨾ star space
    ⨾ plus (none_of (spaces ++ singles "/"))

-- \s*class\s+(\w+\s*::\s*)+\w+\s*;
abbrev pub re_inner_forward : Regex
re_inner_forward =
    star space
    ⨾ lit "class"
    ⨾ plus space
    ⨾ plus (group 1 (plus (one_of words) ⨾ star space ⨾ lit "::" ⨾ star space))
    ⨾ plus (one_of words)
    ⨾ star space
    ⨾ lit ";"

-- (\w+|[+-]?\d+(\.\d*)?)\s*(<|>)\?=?\s*(\w+|[+-]?\d+)(\.\d*)?
abbrev pub re_max_min : Regex
re_max_min =
    group 1 (
      plus (one_of words)
      ⊕ opt (one_of (singles "+-"))
        ⨾ plus (one_of digits)
        ⨾ opt (group 2 (lit "." ⨾ star (one_of digits))))
    ⨾ star space
    ⨾ group 3 (one_of (singles "<>"))
    ⨾ lit "?"
    ⨾ opt (lit "=")
    ⨾ star space
    ⨾ group 4 (plus (one_of words) ⊕ opt (one_of (singles "+-")) ⨾ plus (one_of digits))
    ⨾ opt (group 5 (lit "." ⨾ star (one_of digits)))

-- ^\s*const\s*string\s*&\s*\w+\s*;
abbrev pub re_string_member : Regex
re_string_member =
    line_start
    ⨾ star space
    ⨾ lit "const"
    ⨾ star space
    ⨾ lit "string"
    ⨾ star space
    ⨾ lit "&"
    ⨾ star space
    ⨾ plus (one_of words)
    ⨾ star space
    ⨾ lit ";"

-- The checks on the line with its strings, `with_strings`, and without them.
unfoldable pub check_constructs : Text → ℕ → Text → Text → List Event
check_constructs filename linenum with_strings line =
    when (found re_printf_q with_strings) (
      error filename linenum (codes "runtime/printf_format") 3
        (codes "%q in format strings is deprecated.  Use %ll instead.")
      ∷ [])
    ++ when (found re_printf_position with_strings) (
        error filename linenum (codes "runtime/printf_format") 2
          (codes "%N$ formats are unconventional.  Try rewriting to avoid them.")
        ∷ [])
    ++ when (found re_undefined_escape (replace with_strings (codes "\\\\") [])) (
        error filename linenum (codes "build/printf_format") 3
          (codes "%, [, (, and { are undefined character escapes.  Unescape them.")
        ∷ [])
    ++ when (found re_storage_class line) (
        error filename linenum (codes "build/storage_class") 5
          (codes "Storage class (static, extern, typedef, etc) should be first.")
        ∷ [])
    ++ when (matches re_endif_text line) (
        error filename linenum (codes "build/endif_comment") 5
          (codes "Uncommented text after #endif is non-standard.  Use a comment.")
        ∷ [])
    ++ when (matches re_inner_forward line) (
        error filename linenum (codes "build/forward_decl") 5
          (codes "Inner-style forward declarations are invalid.  Remove this line.")
        ∷ [])
    ++ when (found re_max_min line) (
        error filename linenum (codes "build/deprecated") 3
          (codes ">? and <? (max and min) operators are non-standard and deprecated.")
        ∷ [])
    ++ when (found re_string_member line) (
        error filename linenum (codes "runtime/member_string_references") 2 (
          codes
            "const string& members are dangerous. It is much better to use alternatives, such as pointers or simple constants.")
        ∷ [])

-- `CheckForNonStandardConstructs`, on `clean_lines.lines` and `clean_lines.elided`
unfoldable pub check_for_non_standard_constructs :
    Text → List Text → List Text → ℕ → List ClassInfo → List ClassInfo × List Event
check_for_non_standard_constructs filename lines elided linenum stack =
    let line = get_or elided linenum [] in
    let (next, events) = track_classes filename lines linenum line stack in
    (next, check_constructs filename linenum (get_or lines linenum []) line ++ events)
