-- ===== src/Style.antt =====
-- clint.py: `GetLineWidth`, `GetHeaderGuardCPPVariable` and `CheckStyle`. The tables of
-- `unicodedata` are a parameter.
pub mod Silence
pub mod Width
use mathlib.Core.List.{map}
use dlmalloc.Prelude.{
  ℕ, suc, ◌+◌, Bool, false, not, ◌&&◌, ◌||◌, List, [], ◌∷◌, ◌++◌, Option, none, some, ◌==◌, nat_eq,
  text_eq, if◌then◌else◌, ltb, get_or, take,
}
use dlmalloc.Text.{Text, codes, count, occurs, starts_with, is_space}
use dlmalloc.Unicode.{Unicode, to_upper}
use dlmalloc.Regex.{Regex, ◌⨾◌, star, group, line_start, line_end, matches, found, sub}
use dlmalloc.Regex.Patterns.{lit, one_of, none_of, spaces, singles, words, space, plus, dot, opt}
use dlmalloc.Report.{Event, error, when}
use dlmalloc.LineChecks.{get_previous_non_blank_line}
use dlmalloc.Cleanse.{CleansedLines}
use dlmalloc.FileNames.{Paths}
use dlmalloc.FileNames.Info.{repository_name}
use dlmalloc.Braces.{reported, index_error, unended, check_braces}
use dlmalloc.MacroChecks.{check_check}
use dlmalloc.Spacing.{check_spacing}
use dlmalloc.Classes.{ClassInfo}
use dlmalloc.Classes.Sections.{check_section_spacing}

-- `unicodedata`: `normalize('NFC', s)`, `east_asian_width(c) in ('W', 'F')` and `combining(c)`
pub record Widths : Type 0 where
  pub normalize : Text → Text
  pub is_wide : ℕ → Bool
  pub is_combining : ℕ → Bool

unfoldable pub sum_widths : Widths → Text → ℕ
sum_widths w [] = 0
sum_widths w (uc ∷ s) =
    (if w.is_wide uc then 2 else if w.is_combining uc then 0 else 1) + sum_widths w s

-- `GetLineWidth`: lines are unicode texts
unfoldable pub get_line_width : Widths → Text → ℕ
get_line_width w line = sum_widths w (w.normalize line)

-- _flymake\.h$
abbrev pub re_flymake_header : Regex
re_flymake_header = lit "_flymake.h" ⨾ line_end

-- [-./\s]
abbrev pub re_path_char : Regex
re_path_char = one_of (spaces ++ singles "-./")

-- `GetHeaderGuardCPPVariable`; none where RepositoryName has not ended
unfoldable pub get_header_guard_cpp_variable : Unicode → ℕ → Paths → Text → Option Text
get_header_guard_cpp_variable u fuel os filename =
    elim (repository_name fuel os (sub re_flymake_header (codes ".h") filename)) [
      | none ↦ none
      | some name ↦ some (map (to_upper u) (sub re_path_char (codes "_") name) ++ codes "_")
    ]

-- The number of blanks at the start.
unfoldable pub initial_spaces : Text → ℕ
initial_spaces [] = 0
initial_spaces (c ∷ line) = if c == b' ' then suc (initial_spaces line) else 0

-- `line and line[-1].isspace()`
unfoldable pub ends_in_space : Text → Bool
ends_in_space [] = false
ends_in_space (c ∷ []) = is_space c
ends_in_space (c ∷ d ∷ line) = ends_in_space (d ∷ line)

-- \s*\w+\s*:\s*$
abbrev pub re_label : Regex
re_label = star space ⨾ plus (one_of words) ⨾ star space ⨾ lit ":" ⨾ star space ⨾ line_end

-- [^:]:\s*$
abbrev pub re_ends_in_colon : Regex
re_ends_in_colon = none_of (singles ":") ⨾ lit ":" ⨾ star space ⨾ line_end

-- ^\s*//.*http(s?)://\S*$
abbrev pub re_url : Regex
re_url =
    line_start
    ⨾ star space
    ⨾ lit "//"
    ⨾ star dot
    ⨾ lit "http"
    ⨾ group 1 (opt (lit "s"))
    ⨾ lit "://"
    ⨾ star (none_of spaces)
    ⨾ line_end

-- ^// \$Id:.*#[0-9]+ \$$
abbrev pub re_id_comment : Regex
re_id_comment =
    line_start
    ⨾ lit "// $Id:"
    ⨾ star dot
    ⨾ lit "#"
    ⨾ plus (one_of ((b'0', b'9') ∷ []))
    ⨾ lit " $"
    ⨾ line_end

unfoldable pub check_indent : Text → Text → Text → ℕ → List Event
check_indent filename line cleansed_line linenum =
    let spaces_before = initial_spaces line in
    if ends_in_space line
    then error filename linenum (codes "whitespace/end_of_line") 4
        (codes "Line ends in whitespace.  Consider deleting these extra spaces.")
      ∷ []
    else if (spaces_before == 1 || spaces_before == 3) && not (matches re_label cleansed_line)
    then error filename linenum (codes "whitespace/indent") 3
        (codes "Weird number of spaces at line-start.  Are you using a 2-space indent?")
      ∷ []
    else when (spaces_before == 0 && not (take 2 line == codes "//") && found re_ends_in_colon line)
        (error filename linenum (codes "whitespace/labels") 4 (
            codes
              "Labels should always be indented at least one space.  If this is a member-initializer list in a constructor or the base class list in a class definition, the colon should be on the following line.")
          ∷ [])

-- Whether the line is one of the header guard with the expected variable.
unfoldable pub is_header_guard : Text → Text → Bool
is_header_guard cppvar line =
    starts_with line (codes "#ifndef " ++ cppvar)
    || starts_with line (codes "#define " ++ cppvar)
    || starts_with line (codes "#endif  // " ++ cppvar)

unfoldable pub check_length : Widths → Text → Text → ℕ → Bool → List Event
check_length w filename line linenum is_guard =
    when
      (not (starts_with line (codes "#include"))
        && not is_guard
        && not (matches re_url line)
        && not (matches re_id_comment line)
        && ltb 100 (get_line_width w line))
      (error filename linenum (codes "whitespace/line_length") 4
          (codes "Lines should very rarely be longer than 100 characters")
        ∷ [])

-- Several commands on one line, for the line above that is not blank.
unfoldable pub check_commands : Text → Text → Text → ℕ → List Event
check_commands filename line previous linenum =
    when
      (ltb 1 (count line (codes ";"))
        && not (occurs (codes "for") line)
        && (not (occurs (codes "for") previous) || occurs (codes ";") previous)
        && not (
            (occurs (codes "case ") line || occurs (codes "default:") line)
            && occurs (codes "break;") line))
      (error filename linenum (codes "whitespace/newline") 4
          (codes "More than one command on the same line")
        ∷ [])

-- The test for a header guard: only headers are tested, and only for them the name is read.
unfoldable pub header_guard_test : Unicode → ℕ → Paths → Text → Text → Text → Option Bool
header_guard_test u fuel os filename file_extension line =
    if file_extension == codes "h"
    then elim (get_header_guard_cpp_variable u fuel os filename) [
      | none ↦ none
      | some cppvar ↦ some (is_header_guard cppvar line)
    ]
    else some false

abbrev pub check_sections : Text → List Text → List ClassInfo → ℕ → List Event
check_sections filename lines [] linenum = []
check_sections filename lines (classinfo ∷ outer) linenum =
    check_section_spacing filename lines classinfo linenum

-- `CheckStyle`; none where a loop has not ended, and on IndexError
unfoldable pub check_style :
    Unicode
    → Widths
    → ℕ
    → Paths
    → Text
    → Text
    → CleansedLines
    → ℕ
    → List ClassInfo
    → Option (List Event)
check_style u w fuel os filename file_extension clean_lines linenum stack =
    let line = get_or clean_lines.raw_lines linenum [] in
    let cleansed_line = get_or clean_lines.elided linenum [] in
    elim (header_guard_test u fuel os filename file_extension line) [
      | none ↦ none
      | some is_guard ↦ elim (check_braces fuel filename clean_lines.elided linenum) [
        | index_error ↦ none
        | unended ↦ none
        | reported brace_events ↦ some (
            when (occurs (codes "\t") line) (
              error filename linenum (codes "whitespace/tab") 1
                (codes "Tab found; better to use spaces")
              ∷ [])
            ++ check_indent filename line cleansed_line linenum
            ++ check_length w filename line linenum is_guard
            ++ check_commands filename cleansed_line
                (get_previous_non_blank_line clean_lines.elided linenum).0 linenum
            ++ brace_events
            ++ check_spacing filename clean_lines linenum
            ++ check_check filename line cleansed_line linenum
            ++ check_sections filename clean_lines.lines stack linenum)
      ]
    ]
