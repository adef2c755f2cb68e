-- ===== src/Includes.antt =====
-- clint.py: `_ClassifyInclude`, `CheckIncludeLine` and `UpdateIncludeState`. `none` is a loop of
-- `RepositoryName` that does not end with this much fuel.
pub mod Headers
pub mod Classes
use mathlib.Core.List.{reverse}
use dlmalloc.Prelude.{
  ℕ, ◌+◌, Bool, true, false, not, ◌&&◌, ◌||◌, List, [], ◌∷◌, ◌++◌, Option, none, some, ◌==◌,
  text_eq, option_eq, if◌then◌else◌, contains,
}
use dlmalloc.Prelude.Dict.{lookup, insert}
use dlmalloc.Text.{Text, codes}
use dlmalloc.Unicode.{Unicode}
use dlmalloc.Regex.{
  Regex, ◌⨾◌, ◌⊕◌, star, group, line_start, line_end, match, matches, found, search_in, group_of,
  empty,
}
use dlmalloc.Regex.Patterns.{lit, none_of, opt, plus, singles}
use dlmalloc.Report.{Event, error, when, show}
use dlmalloc.Cleanse.{CleansedLines, re_include, cleanse_comments}
use dlmalloc.IncludeState.{
  HeaderType, c_sys_header, cpp_sys_header, likely_my_header, possible_my_header, other_header,
  IncludeState, check_next_include_order, is_in_alphabetical_order,
}
use dlmalloc.FileNames.{Paths, drop_common_suffixes, is_test_filename}
use dlmalloc.FileNames.Info.{repository_name, base_name}
use dlmalloc.Includes.Headers.{stl_headers, cpp_headers}

-- `_RE_FIRST_COMPONENT`, ^[^-_.]+
abbrev pub re_first_component : Regex
re_first_component = line_start ⨾ plus (none_of (singles "-_."))

-- `match.group(0)` of the first component; none is no match
unfoldable pub first_component : Text → Option Text
unfolding match
first_component base = elim (match re_first_component base) [
  | none ↦ none
  | some t ↦ some (reverse t.past)
]

abbrev same_component : Option Text → Option Text → Bool
same_component (some a) (some b) = a == b
same_component a b = false

-- The kind of a header that does not stand in <>, for the repository name of the file.
unfoldable pub classify_by_name : Paths → Text → Text → HeaderType
unfolding first_component
classify_by_name os repository_name include =
    let (target_dir, target_base) = os.split_path (drop_common_suffixes os repository_name) in
    let (include_dir, include_base) = os.split_path (drop_common_suffixes os include) in
    if target_base == include_base
      && (include_dir == target_dir
          || include_dir == os.normpath (target_dir ++ codes "/../public"))
    then likely_my_header
    else if same_component (first_component target_base) (first_component include_base)
    then possible_my_header
    else other_header

-- `_ClassifyInclude`
unfoldable pub classify_include : ℕ → Paths → Text → Text → Bool → Option HeaderType
classify_include fuel os filename include true = some (
    if contains stl_headers include || contains cpp_headers include
    then cpp_sys_header
    else c_sys_header)
classify_include fuel os filename include false = elim (repository_name fuel os filename) [
  | none ↦ none
  | some name ↦ some (classify_by_name os name include)
]

-- `_RE_PATTERN_INCLUDE_NEW_STYLE`, #include +"[^/]+\.h"
abbrev pub re_include_new_style : Regex
re_include_new_style =
    lit "#include" ⨾ plus (lit " ") ⨾ lit "\"" ⨾ plus (none_of (singles "/")) ⨾ lit ".h\""

-- (f|ind|io|i|o|parse|pf|stdio|str|)?stream$
abbrev pub re_stream : Regex
re_stream =
    opt (
      group 1 (
        lit "f"
        ⊕ lit "ind"
        ⊕ lit "io"
        ⊕ lit "i"
        ⊕ lit "o"
        ⊕ lit "parse"
        ⊕ lit "pf"
        ⊕ lit "stdio"
        ⊕ lit "str"
        ⊕ empty))
    ⨾ lit "stream"
    ⨾ line_end

abbrev text_of : Option Text → Text
text_of none = []
text_of (some t) = t

-- The path of an #include line and whether it stands in <>.
unfoldable pub include_of : Text → Option (Text × Bool)
unfolding search_in
include_of line = elim (search_in re_include line) [
  | none ↦ none
  | some (a, b) ↦ some (text_of (group_of 2 b.groups), group_of 1 b.groups == some (codes "<"))
]

-- What is reported on the order of a header, for the answers of the include state; the name of
-- the file is only read for a message.
unfoldable pub order_events : ℕ → Paths → Text → ℕ → Text → Text → Bool → Option (List Event)
order_events fuel os filename linenum include error_message alphabetical =
    let unsorted = when (not alphabetical) (
      error filename linenum (codes "build/include_alpha") 4
        (codes "Include \"" ++ include ++ codes "\" not in alphabetical order")
      ∷ []) in
    if error_message == [] then some unsorted else elim (base_name fuel os filename) [
      | none ↦ none
      | some base ↦ some (
          error filename linenum (codes "build/include_order") 4 (
            error_message
            ++ codes ". Should be: "
            ++ base
            ++ codes ".h, c system, c++ system, other.")
          ∷ unsorted)
    ]

-- The branch of CheckIncludeLine for a header not seen before.
unfoldable pub add_include :
    Unicode → ℕ → Paths → Text → ℕ → Text → Bool → IncludeState → Option (IncludeState × List Event)
add_include u fuel os filename linenum include is_system st =
    let listed = record st { includes = insert include (show linenum) st.includes } in
    elim (classify_include fuel os filename include is_system) [
      | none ↦ none
      | some header_type ↦
          let (ordered, error_message) = check_next_include_order header_type listed in
          let (last, alphabetical) = is_in_alphabetical_order u include ordered in
          elim (order_events fuel os filename linenum include error_message alphabetical) [
            | none ↦ none
            | some events ↦ some (last, events)
          ]
    ]

-- The branches of CheckIncludeLine on whether the header is already in the include state.
unfoldable pub note_include :
    Unicode → ℕ → Paths → Text → ℕ → Text → Bool → IncludeState → Option (IncludeState × List Event)
note_include u fuel os filename linenum include is_system st = elim (lookup include st.includes) [
  | some place ↦ some (
    st,
    error filename linenum (codes "build/include") 4 (
          codes "\""
          ++ include
          ++ codes "\" already included at "
          ++ filename
          ++ codes ":"
          ++ place)
        ∷ [],
  )
  | none ↦ add_include u fuel os filename linenum include is_system st
]

abbrev check_stream : Text → ℕ → Text → Bool → List Event
check_stream filename linenum include is_system =
    when (matches re_stream include && not (is_test_filename filename)) (
      error filename linenum (codes "readability/streams") 3
        (codes "Streams are highly discouraged.")
      ∷ [])

-- `CheckIncludeLine` on the line `clean_lines.lines[linenum]`. The pattern of an #include line
-- begins with `^`, so that its search and its match agree.
unfoldable pub check_include_line :
    Unicode → ℕ → Paths → Text → Text → ℕ → IncludeState → Option (IncludeState × List Event)
check_include_line u fuel os filename line linenum st =
    let new_style = when (found re_include_new_style line) (
      error filename linenum (codes "build/include") 4
        (codes "Include the directory when naming .h files")
      ∷ []) in
    elim (include_of line) [
      | none ↦ some (st, new_style)
      | some (include, is_system) ↦
          elim (note_include u fuel os filename linenum include is_system st) [
            | none ↦ none
            | some (next, events) ↦
                some (next, new_style ++ events ++ check_stream filename linenum include is_system)
          ]
    ]

-- `include_state.setdefault`, for a line of a header
unfoldable pub add_header : Text → ℕ → Text → IncludeState → IncludeState
add_header filename linenum line st = elim (include_of (cleanse_comments line)) [
  | none ↦ st
  | some (include, is_system) ↦ elim (lookup include st.includes) [
    | some place ↦ st
    | none ↦ record st {
      includes = insert include (filename ++ codes ":" ++ show linenum) st.includes;
    }
  ]
]

-- The loop of UpdateIncludeState over the lines of the header, which keep their newlines.
unfoldable pub add_headers : Text → ℕ → List Text → IncludeState → IncludeState
add_headers filename linenum [] st = st
add_headers filename linenum (line ∷ headerfile) st =
    add_headers filename (linenum + 1) headerfile (add_header filename (linenum + 1) line st)

-- `UpdateIncludeState`; `none` for the file is IOError.
unfoldable pub update_include_state : Text → Option (List Text) → IncludeState → IncludeState × Bool
update_include_state filename none st = (st, false)
update_include_state filename (some headerfile) st = (add_headers filename 0 headerfile st, true)
