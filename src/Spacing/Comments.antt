-- ===== src/Spacing/Comments.antt =====
-- clint.py: `CheckComment`, and what `CheckSpacing` checks of a comment.
use dlmalloc.Prelude.{
  ℕ, ◌+◌, ◌-◌, ◌%◌, Bool, not, ◌&&◌, ◌||◌, List, [], ◌∷◌, ◌++◌, none, some, ◌==◌, nat_eq, text_eq,
  option_eq, if◌then◌else◌, ltb, leb, length, get_or, take, drop,
}
use dlmalloc.Text.{Text, codes, count, find}
use dlmalloc.Regex.{
  Regex, ◌⨾◌, ◌⊕◌, star, lazy_star, group, line_start, line_end, matches, found, group_of,
}
use dlmalloc.Regex.Groups.{match_groups, group_text}
use dlmalloc.Regex.Patterns.{lit, one_of, singles, space, dot, plus, opt, times}
use dlmalloc.Report.{Event, error, when}

-- `_RE_PATTERN_TODO`, ^//(\s*)TODO(\(.+?\))?:?(\s|$)?
abbrev pub re_todo : Regex
re_todo =
    line_start
    ⨾ lit "//"
    ⨾ group 1 (star space)
    ⨾ lit "TODO"
    ⨾ opt (group 2 (lit "(" ⨾ dot ⨾ lazy_star dot ⨾ lit ")"))
    ⨾ opt (lit ":")
    ⨾ opt (group 3 (space ⊕ line_end))

-- `CheckComment`
unfoldable pub check_comment : Text → Text → ℕ → List Event
check_comment comment filename linenum = elim (match_groups re_todo comment) [
  | none ↦ []
  | some groups ↦
      let middle_whitespace = group_of 3 groups in
      when (ltb 1 (length (group_text 1 groups))) (
        error filename linenum (codes "whitespace/todo") 2 (codes "Too many spaces before TODO")
        ∷ [])
      ++ when (group_text 2 groups == []) (
          error filename linenum (codes "readability/todo") 2
            (codes "Missing username in TODO; it should look like \"// TODO(my_username): Stuff.\"")
          ∷ [])
      ++ when (not (middle_whitespace == some (codes " ")) && not (middle_whitespace == some [])) (
          error filename linenum (codes "whitespace/todo") 2
            (codes "TODO(my_username) should be followed by a space")
          ∷ [])
]

-- ^\s*{ //
abbrev pub re_new_scope : Regex
re_new_scope = line_start ⨾ star space ⨾ lit "{ //"

-- [=/-]{4,}\s*$
abbrev pub re_delimiter : Regex
re_delimiter =
    times 4 (one_of (singles "=/-")) ⨾ star (one_of (singles "=/-")) ⨾ star space ⨾ line_end

-- ^/$
abbrev pub re_empty_doxygen : Regex
re_empty_doxygen = line_start ⨾ lit "/" ⨾ line_end

-- ^/+
abbrev pub re_slashes : Regex
re_slashes = line_start ⨾ plus (lit "/") ⨾ lit " "

-- `c in string.whitespace`
abbrev pub is_whitespace : ℕ → Bool
is_whitespace c = leb 9 c && leb c 13 || c == 32

-- There is a character `back` places before `commentpos`, and it is no space.
unfoldable pub is_close : Text → ℕ → ℕ → Bool
is_close line commentpos back =
    leb back commentpos && not (is_whitespace (get_or line (commentpos - back) 0))

-- The `//` at this place stands in no string.
unfoldable pub is_outside_quotes : Text → ℕ → Bool
is_outside_quotes line commentpos =
    let before = take commentpos line in
    (count before (codes "\"") - count before (codes "\\\"")) % 2 == 0

unfoldable pub check_comment_at : Text → Text → ℕ → ℕ → List Event
check_comment_at filename line linenum commentpos =
    let comment = drop (commentpos + 2) line in
    when
      (not (matches re_new_scope line)
        && (is_close line commentpos 1 || is_close line commentpos 2))
      (error filename linenum (codes "whitespace/comments") 2
          (codes "At least two spaces is best between code and comments")
        ∷ [])
    ++ when
        (not (comment == [])
          && not (get_or comment 0 0 == b' ')
          && not (
              found re_delimiter comment
              || found re_empty_doxygen comment
              || found re_slashes comment))
        (error filename linenum (codes "whitespace/comments") 4
            (codes "Should have a space between // and comment")
          ∷ [])
    ++ check_comment (drop commentpos line) filename linenum

-- The part of CheckSpacing on comments, for the raw line.
unfoldable pub check_comment_spacing : Text → Text → ℕ → List Event
check_comment_spacing filename line linenum = elim (find line (codes "//")) [
  | none ↦ []
  | some commentpos ↦
      if is_outside_quotes line commentpos
      then check_comment_at filename line linenum commentpos
      else []
]
