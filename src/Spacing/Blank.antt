-- ===== src/Spacing/Blank.antt =====
-- clint.py, `CheckSpacing`: blank lines at the start and the end of a block.
use dlmalloc.Prelude.{
  ℕ, zero, suc, ◌+◌, ◌-◌, Bool, false, not, ◌&&◌, ◌||◌, List, [], ◌∷◌, ◌++◌, none, some, ◌==◌,
  nat_eq, text_eq, option_eq, if◌then◌else◌, ltb, length, get_or, take, drop,
}
use dlmalloc.Text.{Text, codes, rfind, occurs}
use dlmalloc.Regex.{Regex, ◌⨾◌, ◌⊕◌, star, group, line_end, matches}
use dlmalloc.Regex.Patterns.{lit, one_of, none_of, singles, words, space, opt, times}
use dlmalloc.Report.{Event, error, when}
use dlmalloc.Cleanse.{CleansedLines}
use dlmalloc.Classes.Sections.{section_of}

--  {6}\w
abbrev pub re_initializer : Regex
re_initializer = times 6 (lit " ") ⨾ one_of words

--  {4}\w[^\(]*\)\s*(const\s*)?(\{\s*$|:)
abbrev pub re_last_parameters : Regex
re_last_parameters =
    times 4 (lit " ")
    ⨾ one_of words
    ⨾ star (none_of (singles "("))
    ⨾ lit ")"
    ⨾ star space
    ⨾ opt (group 1 (lit "const" ⨾ star space))
    ⨾ group 2 (lit "{" ⨾ star space ⨾ line_end ⊕ lit ":")

--  {4}:
abbrev pub re_initializer_list : Regex
re_initializer_list = times 4 (lit " ") ⨾ lit ":"

-- \s*}
abbrev pub re_brace_first : Regex
re_brace_first = star space ⨾ lit "}"

-- `lines[linenum - 1]`, where -1 is the last line
unfoldable pub line_above : List Text → ℕ → Text
line_above lines zero = get_or lines (length lines - 1) []
line_above lines (suc n) = get_or lines n []

-- Whether the run of initializers that ends above line `n` has an initializer list in front.
unfoldable pub starts_initializers : List Text → ℕ → Bool
starts_initializers elided zero = false
starts_initializers elided (suc n) =
    let earlier = starts_initializers elided n in
    let line = get_or elided n [] in
    if matches re_initializer line then earlier else take 5 line == codes "    :"

-- A block is opened in the line and not closed, and it is no namespace.
unfoldable pub opens_block : Text → Bool
opens_block prev_line = elim (rfind prev_line (codes "{")) [
  | none ↦ false
  | some prevbrace ↦
      not (occurs (codes "}") (drop prevbrace prev_line))
      && not (occurs (codes "namespace") (take prevbrace prev_line))
]

-- The exceptions to the rule on blank lines at the start of a block.
unfoldable pub may_be_blank : List Text → ℕ → Text → Bool
may_be_blank elided linenum prev_line =
    if matches re_initializer prev_line
    then starts_initializers elided (linenum - 1)
    else matches re_last_parameters prev_line || matches re_initializer_list prev_line

-- The checks of a blank line.
unfoldable pub check_blank_line : Text → CleansedLines → ℕ → List Event
check_blank_line filename clean_lines linenum =
    let prev_line = line_above clean_lines.elided linenum in
    let next_line = get_or clean_lines.raw_lines (linenum + 1) [] in
    when (opens_block prev_line && not (may_be_blank clean_lines.elided linenum prev_line)) (
      error filename linenum (codes "whitespace/blank_line") 2
        (codes "Blank line at the start of a code block.  Is this needed?")
      ∷ [])
    ++ when
        (ltb (linenum + 1) clean_lines.num_lines
          && not (next_line == [])
          && matches re_brace_first next_line
          && not (occurs (codes "namespace") next_line)
          && not (occurs (codes "} else ") next_line))
        (error filename linenum (codes "whitespace/blank_line") 3
            (codes "Blank line at the end of a code block.  Is this needed?")
          ∷ [])
    ++ elim (section_of prev_line) [
      | none ↦ []
      | some section ↦
          error filename linenum (codes "whitespace/blank_line") 3
            (codes "Do not leave a blank line after \"" ++ section ++ codes ":\"")
          ∷ []
    ]
