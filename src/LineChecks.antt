-- ===== src/LineChecks.antt =====
-- clint.py: checks of one line that read nothing else, the classes that a file declares, and
-- `IsBlankLine` and `GetPreviousNonBlankLine`. The checks are given the line of the view that they
-- read: `elided` of the cleansed lines, or `raw_lines` for `CheckMakePairUsesDeduction`.
pub mod Blank
use dlmalloc.Prelude.{
  ℕ, zero, suc, ◌+◌, ◌-◌, ◌%◌, Bool, true, false, not, ◌&&◌, ◌||◌, String, List, [], ◌∷◌, ◌++◌,
  Option, none, some, ◌==◌, nat_eq, text_eq, ltb, if◌then◌else◌, get_or, get_elem?, drop, contains,
  ℤ, pos, negsuc,
}
use dlmalloc.Text.{Text, codes, count, find, replace, all_space}
use dlmalloc.Unicode.{Unicode, is_alnum}
use dlmalloc.Regex.{Regex, ◌⨾◌, ◌⊕◌, star, group, line_start, word_edge, matches, found}
use dlmalloc.Regex.Patterns.{lit, one_of, plus, space, words}
use dlmalloc.Report.{Event, error, when}

-- `CheckForMultilineCommentsAndStrings`. No `\"` is counted without its quote, so the difference
-- of the two counts is not negative.
unfoldable pub check_for_multiline_comments_and_strings : Text → Text → ℕ → List Event
check_for_multiline_comments_and_strings filename elided linenum =
    let line = replace elided (codes "\\\\") [] in
    when (ltb (count line (codes "*/")) (count line (codes "/*"))) (
      error filename linenum (codes "readability/multiline_comment") 5 (
        codes "Complex multi-line /*...*/-style comment found. "
        ++ codes "Lint may give bogus warnings.  "
        ++ codes "Consider replacing these with //-style comments, "
        ++ codes "with #if 0...#endif, "
        ++ codes "or with more clearly structured multi-line comments.")
      ∷ [])
    ++ when (not ((count line (codes "\"") - count line (codes "\\\"")) % 2 == 0)) (
        error filename linenum (codes "readability/multiline_string") 5 (
          codes "Multi-line string (\"...\") found.  This lint script doesn't "
          ++ codes "do well with such strings, and may give bogus warnings.  They're "
          ++ codes "ugly and unnecessary, and you should use concatenation instead\".")
        ∷ [])

-- `threading_list`
abbrev pub threading_list : List (Text × Text)
threading_list =
    (codes "asctime(", codes "asctime_r(")
    ∷ (codes "ctime(", codes "ctime_r(")
    ∷ (codes "getgrgid(", codes "getgrgid_r(")
    ∷ (codes "getgrnam(", codes "getgrnam_r(")
    ∷ (codes "getlogin(", codes "getlogin_r(")
    ∷ (codes "getpwnam(", codes "getpwnam_r(")
    ∷ (codes "getpwuid(", codes "getpwuid_r(")
    ∷ (codes "gmtime(", codes "gmtime_r(")
    ∷ (codes "localtime(", codes "localtime_r(")
    ∷ (codes "rand(", codes "rand_r(")
    ∷ (codes "readdir(", codes "readdir_r(")
    ∷ (codes "strtok(", codes "strtok_r(")
    ∷ (codes "ttyname(", codes "ttyname_r(")
    ∷ []

-- Whether the call at `ix` is of the function itself: `not line[ix - 1].isalnum() and ...`
unfoldable pub stands_alone : Unicode → Text → ℕ → Bool
stands_alone u line zero = true
stands_alone u line (suc i) =
    let c = get_or line i 0 in not (is_alnum u c) && not (contains (b'_' ∷ b'.' ∷ b'>' ∷ []) c)

-- Whether the first call of the function is reported.
unfoldable pub is_unsafe_call : Unicode → Text → Text → Bool
unfolding find stands_alone
is_unsafe_call u line single_thread_function = elim (find line single_thread_function) [
  | none ↦ false
  | some ix ↦ stands_alone u line ix
]

-- The loop of `CheckPosixThreading`.
unfoldable pub check_threading : Unicode → Text → Text → ℕ → List (Text × Text) → List Event
check_threading u filename line linenum [] = []
check_threading u filename line linenum ((single, multi) ∷ functions) =
    when (is_unsafe_call u line single) (
      error filename linenum (codes "runtime/threadsafe_fn") 2 (
        codes "Consider using "
        ++ multi
        ++ codes "...) instead of "
        ++ single
        ++ codes "...) for improved thread safety.")
      ∷ [])
    ++ check_threading u filename line linenum functions

-- `CheckPosixThreading`
unfoldable pub check_posix_threading : Unicode → Text → Text → ℕ → List Event
check_posix_threading u filename line linenum =
    check_threading u filename line linenum threading_list

-- `_RE_PATTERN_INVALID_INCREMENT`, ^\s*\*\w+(\+\+|--);
abbrev pub re_invalid_increment : Regex
re_invalid_increment =
    line_start
    ⨾ star space
    ⨾ lit "*"
    ⨾ plus (one_of words)
    ⨾ group 1 (lit "++" ⊕ lit "--")
    ⨾ lit ";"

-- `CheckInvalidIncrement`
unfoldable pub check_invalid_increment : Text → Text → ℕ → List Event
check_invalid_increment filename line linenum = when (matches re_invalid_increment line) (
    error filename linenum (codes "runtime/invalid_increment") 5
      (codes "Changing pointer instead of value (or unused value of operator*).")
    ∷ [])

-- `_RE_PATTERN_EXPLICIT_MAKEPAIR`, \bmake_pair\s*<
abbrev pub re_explicit_makepair : Regex
re_explicit_makepair = word_edge ⨾ lit "make_pair" ⨾ star space ⨾ lit "<"

-- `CheckMakePairUsesDeduction`
unfoldable pub check_make_pair_uses_deduction : Text → Text → ℕ → List Event
check_make_pair_uses_deduction filename line linenum = when (found re_explicit_makepair line) (
    error filename linenum (codes "build/explicit_make_pair") 4 (
      codes "Omit template arguments from make_pair OR use pair directly OR"
      ++ codes " if appropriate, construct a pair directly")
    ∷ [])

-- `IsBlankLine`
unfoldable pub is_blank_line : Text → Bool
is_blank_line [] = true
is_blank_line (c ∷ line) = all_space (c ∷ line)

-- `GetPreviousNonBlankLine`, for a line of the file; `before` counts the
-- lines still to look at
unfoldable pub get_previous_non_blank_line : List Text → ℕ → Text × ℤ
get_previous_non_blank_line elided zero = ([], negsuc 0)
get_previous_non_blank_line elided (suc before) =
    let earlier = get_previous_non_blank_line elided before in
    let prevline = get_or elided before [] in
    if not (is_blank_line prevline) then (prevline, pos before) else earlier
