-- ===== src/Cleanse.antt =====
-- clint.py: lines without comments and strings. `RemoveMultiLineComments` works on the list that
-- it is given; the model returns the new list.
pub mod Comments
pub mod Lines
use mathlib.Core.List.{map}
use dlmalloc.Prelude.{
  ℕ, zero, suc, ◌+◌, ◌-◌, ◌%◌, Bool, true, false, not, ◌&&◌, List, [], ◌∷◌, ◌++◌, Option, none,
  some, ◌==◌, nat_eq, ltb, leb, if◌then◌else◌, length, take, drop, replicate,
}
use dlmalloc.Text.{Text, codes, starts_with, ends_with, find, occurs, count, replace, rstrip, strip}
use dlmalloc.Regex.{Regex, ◌⨾◌, ◌⊕◌, star, group, line_start, line_end, if_ahead, matches, sub}
use dlmalloc.Regex.Patterns.{lit, one_of, none_of, singles, digits, words, space, dot, plus}
use dlmalloc.Report.{Event, error}

-- `IsCppString`: `(a - b - c) & 1` is the parity of the sum.
unfoldable pub is_cpp_string : Text → Bool
unfolding replace count
is_cpp_string line =
    let plain = replace line (codes "\\\\") (codes "XX") in
    (count plain (codes "\"") + count plain (codes "\\\"") + count plain (codes "'\"'")) % 2 == 1

-- A comment starts on this line and goes beyond it.
unfoldable pub opens_comment : Text → Bool
unfolding strip starts_with occurs
opens_comment line =
    starts_with (strip line) (codes "/*") && not (occurs (codes "*/") (drop 2 (strip line)))

unfoldable pub closes_comment : Text → Bool
unfolding strip ends_with
closes_comment line = ends_with (strip line) (codes "*/")

-- The place of the first line that passes the test, or `end`; `ix` is the place of the head.
unfoldable pub first_line : (Text → Bool) → ℕ → List Text → ℕ → ℕ
first_line test end [] ix = end
first_line test end (line ∷ lines) ix = if test line then ix else first_line test end lines (suc ix)

-- `FindNextMultiLineCommentStart`
unfoldable pub find_next_multi_line_comment_start : List Text → ℕ → ℕ
find_next_multi_line_comment_start lines lineix =
    first_line opens_comment (length lines) (drop lineix lines) lineix

-- `FindNextMultiLineCommentEnd`
unfoldable pub find_next_multi_line_comment_end : List Text → ℕ → ℕ
find_next_multi_line_comment_end lines lineix =
    first_line closes_comment (length lines) (drop lineix lines) lineix

abbrev pub dummy : Text
dummy = codes "// dummy"

-- `RemoveMultiLineCommentsFromRange`, for begin <= end <= len(lines)
unfoldable pub remove_multi_line_comments_from_range : List Text → ℕ → ℕ → List Text
remove_multi_line_comments_from_range lines begin end =
    take begin lines ++ (replicate (end - begin) dummy ++ drop end lines)

-- The `while` loop on fuel; `none` means that the fuel ran out.
unfoldable pub remove_from : ℕ → Text → List Text → ℕ → Option (List Text × List Event)
remove_from zero filename lines lineix = none
remove_from (suc fuel) filename lines lineix =
    let lineix_begin = find_next_multi_line_comment_start lines lineix in
    let lineix_end = find_next_multi_line_comment_end lines lineix_begin in
    let later =
      remove_from fuel filename
        (remove_multi_line_comments_from_range lines lineix_begin (lineix_end + 1))
        (lineix_end + 1) in
    if not (ltb lineix (length lines))
    then some (lines, [])
    else if leb (length lines) lineix_begin
    then some (lines, [])
    else if leb (length lines) lineix_end
    then some (
      lines,
      error filename (lineix_begin + 1) (codes "readability/multiline_comment") 5
            (codes "Could not find end of multi-line comment")
          ∷ [],
    )
    else later

-- `RemoveMultiLineComments`
unfoldable pub remove_multi_line_comments : Text → List Text → Option (List Text × List Event)
unfolding remove_from
remove_multi_line_comments filename lines = remove_from (suc (length lines)) filename lines 0

-- /\*.*\*/
abbrev pub re_comment : Regex
re_comment = lit "/*" ⨾ star dot ⨾ lit "*/"

-- `_RE_PATTERN_CLEANSE_LINE_C_COMMENTS`
abbrev pub re_c_comments : Regex
re_c_comments = group 1 (
    (star space ⨾ re_comment ⨾ star space ⨾ line_end)
    ⊕ (re_comment ⨾ plus space)
    ⊕ (plus space ⨾ re_comment ⨾ if_ahead (none_of words))
    ⊕ re_comment)

-- The line up to a comment // that is not inside a string.
unfoldable pub cut_line_comment : Text → Text
unfolding find rstrip
cut_line_comment line = elim (find line (codes "//")) [
  | none ↦ line
  | some commentpos ↦
      if not (is_cpp_string (take commentpos line)) then rstrip (take commentpos line) else line
]

-- `CleanseComments`
unfoldable pub cleanse_comments : Text → Text
unfolding cut_line_comment sub
cleanse_comments line = sub re_c_comments [] (cut_line_comment line)

-- `_RE_PATTERN_INCLUDE`, ^\s*#\s*include\s*([<"])([^>"]*)[>"].*$
abbrev pub re_include : Regex
re_include =
    line_start
    ⨾ star space
    ⨾ lit "#"
    ⨾ star space
    ⨾ lit "include"
    ⨾ star space
    ⨾ group 1 (one_of (singles "<\""))
    ⨾ group 2 (star (none_of (singles ">\"")))
    ⨾ one_of (singles ">\"")
    ⨾ star dot
    ⨾ line_end

-- `_RE_PATTERN_CLEANSE_LINE_ESCAPES`, \\([abfnrtv?"\\\']|\d+|x[0-9a-fA-F]+)
abbrev pub re_escapes : Regex
re_escapes =
    lit "\\"
    ⨾ group 1 (
        one_of (singles "abfnrtv?\"\\'")
        ⊕ plus (one_of digits)
        ⊕ (lit "x" ⨾ plus (one_of ((b'0', b'9') ∷ (b'a', b'f') ∷ (b'A', b'F') ∷ []))))

-- '.' and "[^"]*"
abbrev pub re_single_quotes : Regex
re_single_quotes = lit "'" ⨾ dot ⨾ lit "'"

abbrev pub re_double_quotes : Regex
re_double_quotes = lit "\"" ⨾ star (none_of (singles "\"")) ⨾ lit "\""

-- `_CollapseStrings`
unfoldable pub collapse_strings : Text → Text
unfolding sub matches
collapse_strings elided =
    if not (matches re_include elided)
    then sub re_double_quotes (codes "\"\"")
        (sub re_single_quotes (codes "''") (sub re_escapes [] elided))
    else elided

pub record CleansedLines : Type 0 where
  pub elided : List Text
  pub lines : List Text
  pub raw_lines : List Text
  pub num_lines : ℕ

-- `__init__`
unfoldable pub cleansed_lines : List Text → CleansedLines
cleansed_lines lines = record {
  elided = map (λ line. cleanse_comments (collapse_strings line)) lines;
  lines = map cleanse_comments lines;
  raw_lines = lines;
  num_lines = length lines;
}
