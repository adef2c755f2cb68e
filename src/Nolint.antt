-- ===== src/Nolint.antt =====
-- clint.py: NOLINT comments. `_error_suppressions` is a dict from categories, and None for all
-- of them, to sets of line numbers.
pub mod Parsing
pub mod Comment
use dlmalloc.Prelude.{
  ℕ, ◌-◌, Bool, ◌&&◌, ◌||◌, List, [], ◌∷◌, Option, none, some, ◌++◌, ℤ, ◌==◌, text_eq, option_eq,
  int_eq, if◌then◌else◌, length, take, drop, contains,
}
use dlmalloc.Prelude.Dict.{lookup, insert}
use dlmalloc.Text.{Text, codes, starts_with, ends_with}
use dlmalloc.Regex.{Regex, Cursor, ◌⨾◌, star, group, word_edge, search_in, group_of}
use dlmalloc.Regex.Patterns.{lit, none_of, opt, singles}
use dlmalloc.Report.{Event, suppress, error, is_error_category}

abbrev pub Suppressions : Type 0
Suppressions = List (Option Text × List ℤ)

-- `_RE_SUPPRESSION`, \bNOLINT\b(\([^)]*\))?
abbrev pub re_suppression : Regex
re_suppression =
    word_edge
    ⨾ lit "NOLINT"
    ⨾ word_edge
    ⨾ opt (group 1 (lit "(" ⨾ star (none_of (singles ")")) ⨾ lit ")"))

-- `text[1:-1]`
abbrev pub inside : Text → Text
inside text = take (length text - 2) (drop 1 text)

-- What a match whose first group is `category` leads to.
unfoldable pub on_category : Text → ℕ → Option Text → List Event
unfolding starts_with ends_with
on_category filename linenum none = suppress none linenum ∷ []
on_category filename linenum (some category) =
    if category == codes "(*)"
    then suppress none linenum ∷ []
    else if starts_with category (codes "(") && ends_with category (codes ")")
    then if is_error_category (inside category)
      then suppress (some (inside category)) linenum ∷ []
      else error filename linenum (codes "readability/nolint") 5
          (codes "Unknown NOLINT error category: " ++ inside category)
        ∷ []
    else []

-- `ParseNolintSuppressions`
unfoldable pub parse_nolint_suppressions : Text → Text → ℕ → List Event
parse_nolint_suppressions filename raw_line linenum = elim (search_in re_suppression raw_line) [
  | none ↦ []
  | some (a, b) ↦ on_category filename linenum (group_of 1 b.groups)
]

-- `_error_suppressions.setdefault(category, set()).add(linenum)`
unfoldable pub add_suppression : Option Text → ℤ → Suppressions → Suppressions
add_suppression category linenum table = elim (lookup category table) [
  | none ↦ insert category (linenum ∷ []) table
  | some lines ↦ if contains lines linenum then table else insert category (linenum ∷ lines) table
]

-- `ResetNolintSuppressions`
abbrev pub reset_nolint_suppressions : Suppressions
reset_nolint_suppressions = []

abbrev pub lines_of : Option Text → Suppressions → List ℤ
lines_of category table = elim (lookup category table) [ none ↦ [] | some lines ↦ lines ]

-- `IsErrorSuppressedByNolint`
unfoldable pub is_error_suppressed_by_nolint : Text → ℤ → Suppressions → Bool
is_error_suppressed_by_nolint category linenum table =
    contains (lines_of (some category) table) linenum || contains (lines_of none table) linenum
