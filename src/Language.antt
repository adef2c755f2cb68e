-- ===== src/Language.antt =====
-- clint.py: `CheckLanguage`, whose checks are in the children. The variables `extended_line` and
-- `fullname` of the source are never read, and left out.
pub mod Casts
pub mod Functions
pub mod Arrays
use dlmalloc.Prelude.{
  ℕ, zero, suc, ◌+◌, ◌-◌, Bool, true, false, not, ◌&&◌, ◌||◌, List, [], ◌∷◌, ◌++◌, Option, none,
  some, ◌==◌, nat_eq, text_eq, option_eq, if◌then◌else◌, ltb, leb, length, get_or, take, drop,
}
use dlmalloc.Text.{Text, codes, occurs, starts_with, ends_with}
use dlmalloc.Regex.{
  Regex, ◌⨾◌, ◌⊕◌, empty, star, lazy_star, group, line_start, line_end, word_edge, unless_ahead,
  matches, found, group_of,
}
use dlmalloc.Regex.Groups.{
  Groups, match_groups, search_groups, group_text, count_matches, split_matches,
}
use dlmalloc.Regex.Patterns.{
  lit, lit_ci, one_of, none_of, spaces, singles, words, digits, space, dot, plus, opt,
}
use dlmalloc.Report.{Event, error, when}
use dlmalloc.Unicode.{Unicode}
use dlmalloc.Cleanse.{CleansedLines, re_include}
use dlmalloc.FileNames.{Paths}
use dlmalloc.IncludeState.{IncludeState}
use dlmalloc.Includes.{check_include_line}
use dlmalloc.Language.Casts.{
  check_references, check_conversions, check_casts, check_cast_address, check_string_constants,
  check_dynamic_cast,
}
use dlmalloc.Language.Functions.{
  check_self_initialization, check_c_types, check_snprintf, check_c_functions, check_printf,
  check_memset,
}
use dlmalloc.Language.Arrays.{check_arrays}

-- \busing namespace\b
abbrev pub re_using_namespace : Regex
re_using_namespace = word_edge ⨾ lit "using namespace" ⨾ word_edge

-- \s*(DISALLOW_(EVIL_CONSTRUCTORS|COPY_AND_ASSIGN|IMPLICIT_CONSTRUCTORS))\(.*\);$
abbrev pub re_disallow : Regex
re_disallow =
    star space
    ⨾ group 1 (
        lit "DISALLOW_"
        ⨾ group 2 (lit "EVIL_CONSTRUCTORS" ⊕ lit "COPY_AND_ASSIGN" ⊕ lit "IMPLICIT_CONSTRUCTORS"))
    ⨾ lit "("
    ⨾ star dot
    ⨾ lit ");"
    ⨾ line_end

-- ^\s*}[\w\*,\s]*;
abbrev pub re_class_end : Regex
re_class_end =
    line_start ⨾ star space ⨾ lit "}" ⨾ star (one_of (words ++ spaces ++ singles "*,")) ⨾ lit ";"

-- \bnamespace\s*{
abbrev pub re_unnamed_namespace : Regex
re_unnamed_namespace = word_edge ⨾ lit "namespace" ⨾ star space ⨾ lit "{"

-- A macro that disallows constructors stands last in its class.
unfoldable pub check_disallow : Text → List Text → ℕ → Text → List Event
check_disallow filename elided linenum line = elim (match_groups re_disallow line) [
  | none ↦ []
  | some groups ↦
      when
        (ltb (linenum + 1) (length elided)
          && not (found re_class_end (get_or elided (linenum + 1) [])))
        (error filename linenum (codes "readability/constructors") 3
            (group_text 1 groups ++ codes " should be the last thing in the class")
          ∷ [])
]

unfoldable pub check_namespaces : Text → Text → ℕ → Text → List Event
check_namespaces filename file_extension linenum line =
    when
      (file_extension == codes "h"
        && found re_unnamed_namespace line
        && not (ends_with line (codes "\\")))
      (error filename linenum (codes "build/namespaces") 4 (
          codes
            "Do not use unnamed namespaces in header files.  See http://google-styleguide.googlecode.com/svn/trunk/cppguide.xml#Namespaces for more information.")
        ∷ [])

-- The checks of a line that is no #include.
unfoldable pub check_code : Text → Text → List Text → ℕ → Text → Option (List Event)
check_code filename file_extension elided linenum line = elim (check_printf filename linenum line) [
  | none ↦ none
  | some printf_events ↦ some (
      check_references filename linenum line
      ++ check_conversions filename linenum line
      ++ check_casts filename linenum line
      ++ check_cast_address filename linenum line
      ++ check_string_constants filename linenum line
      ++ check_dynamic_cast filename linenum line
      ++ check_self_initialization filename linenum line
      ++ check_c_types filename linenum line
      ++ check_snprintf filename linenum line
      ++ check_c_functions filename linenum line
      ++ printf_events
      ++ check_memset filename linenum line
      ++ when (found re_using_namespace line) (
          error filename linenum (codes "build/namespaces") 5
            (codes "Do not use namespace using-directives.  Use using-declarations instead.")
          ∷ [])
      ++ check_arrays filename linenum line
      ++ check_disallow filename elided linenum line
      ++ check_namespaces filename file_extension linenum line)
]

-- `CheckLanguage`
unfoldable pub check_language :
    Unicode
    → ℕ
    → Paths
    → Text
    → Text
    → CleansedLines
    → ℕ
    → IncludeState
    → Option (IncludeState × List Event)
check_language u fuel os filename file_extension clean_lines linenum st =
    let line = get_or clean_lines.elided linenum [] in
    if line == []
    then some (st, [])
    else if found re_include line
    then check_include_line u fuel os filename (get_or clean_lines.lines linenum []) linenum st
    else elim (check_code filename file_extension clean_lines.elided linenum line) [
      | none ↦ none
      | some events ↦ some (st, events)
    ]
