-- ===== src/Classes/Sections.antt =====
-- clint.py, `CheckSectionSpacing`.
use dlmalloc.Prelude.{
  ℕ, ◌+◌, ◌-◌, not, ◌&&◌, ◌||◌, List, [], ◌∷◌, ◌++◌, Option, none, some, if◌then◌else◌, leb, ltb,
  get_or, take, drop,
}
use dlmalloc.Text.{Text, codes}
use dlmalloc.Regex.{Regex, ◌⨾◌, ◌⊕◌, star, group, line_end, word_edge, match, found, group_of}
use dlmalloc.Regex.Patterns.{lit, space}
use dlmalloc.Report.{Event, error, when}
use dlmalloc.LineChecks.{is_blank_line}
use dlmalloc.Classes.{ClassInfo}

-- \s*(public|protected|private):
abbrev pub re_section : Regex
re_section =
    star space ⨾ group 1 (lit "p" ⨾ (lit "ublic" ⊕ lit "rotected" ⊕ lit "rivate")) ⨾ lit ":"

-- \b(class|struct)\b
abbrev pub re_class_or_struct : Regex
re_class_or_struct = word_edge ⨾ group 1 (lit "class" ⊕ lit "struct") ⨾ word_edge

-- \{\s*$
abbrev pub re_brace_last : Regex
re_brace_last = lit "{" ⨾ star space ⨾ line_end

-- The section that the line begins, `match.group(1)`.
unfoldable pub section_of : Text → Option Text
section_of line = elim (match re_section line) [ none ↦ none | some t ↦ group_of 1 t.groups ]

-- The first of the lines, from line `i` on, that ends in an opening brace, or `head`.
unfoldable pub find_class_head : List Text → ℕ → ℕ → ℕ
find_class_head [] i head = head
find_class_head (line ∷ lines) i head =
    if found re_brace_last line then i else find_class_head lines (i + 1) head

-- `CheckSectionSpacing` on `clean_lines.lines`
unfoldable pub check_section_spacing : Text → List Text → ClassInfo → ℕ → List Event
check_section_spacing filename lines class_info linenum =
    let first = class_info.linenum in
    let prev_line = get_or lines (linenum - 1) [] in
    let end_class_head = find_class_head (take (linenum - first) (drop first lines)) first first in
    if leb class_info.last_line (first + 24) || leb linenum first
    then []
    else elim (section_of (get_or lines linenum [])) [
      | none ↦ []
      | some section ↦
          when
            (not (is_blank_line prev_line)
              && not (found re_class_or_struct prev_line)
              && ltb end_class_head (linenum - 1))
            (error filename linenum (codes "whitespace/blank_line") 3
                (codes "\"" ++ section ++ codes ":\" should be preceded by a blank line")
              ∷ [])
    ]
