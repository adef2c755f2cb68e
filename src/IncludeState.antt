-- ===== src/IncludeState.antt =====
-- clint.py, `class _IncludeState`: the includes of a file and the order in which they came.
pub mod Order
pub mod Alphabet
use mathlib.Core.List.{map}
use Prim.Native.Nat.{compare, Ordering}
use dlmalloc.Prelude.{ℕ, Bool, true, false, not, ◌&&◌, List, [], ◌∷◌, ◌++◌, leb, if◌then◌else◌}
use dlmalloc.Text.{Text, codes, replace}
use dlmalloc.Unicode.{Unicode, to_lower}

-- `_C_SYS_HEADER` and so on
pub data HeaderType : Type 0 where
  c_sys_header cpp_sys_header likely_my_header possible_my_header other_header : HeaderType

pub data Section : Type 0 where
  initial_section my_h_section c_section cpp_section other_h_section : Section

-- The value of each constant.
abbrev pub rank : Section → ℕ
rank initial_section = 0
rank my_h_section = 1
rank c_section = 2
rank cpp_section = 3
rank other_h_section = 4

-- `_TYPE_NAMES`
abbrev pub type_name : HeaderType → Text
type_name c_sys_header = codes "C system header"
type_name cpp_sys_header = codes "C++ system header"
type_name likely_my_header = codes "header this file implements"
type_name possible_my_header = codes "header this file may implement"
type_name other_header = codes "other header"

-- `_SECTION_NAMES`
abbrev pub section_name : Section → Text
section_name initial_section = codes "... nothing. (This can't be an error.)"
section_name my_h_section = codes "a header this file implements"
section_name c_section = codes "C system header"
section_name cpp_section = codes "C++ system header"
section_name other_h_section = codes "other header"

-- The dict part of the object maps an include to the text that a message shows for its line.
pub record IncludeState : Type 0 where
  pub includes : List (Text × Text)
  pub section : Section
  pub last_header : Text

-- `__init__`
abbrev pub initial : IncludeState
initial = record { includes = []; section = initial_section; last_header = [] }

-- `CanonicalizeAlphabeticalOrder`
unfoldable pub canonicalize_alphabetical_order : Unicode → Text → Text
unfolding replace to_lower
canonicalize_alphabetical_order u header_path =
    map (to_lower u)
      (replace (replace header_path (codes "-inl.h") (codes ".h")) (codes "-") (codes "_"))

-- `a > b` on texts
unfoldable pub greater : Text → Text → Bool
greater [] b = false
greater (x ∷ a) [] = true
greater (x ∷ a) (y ∷ b) = elim (compare x y) [
  | Ordering.lt ↦ false
  | Ordering.eq ↦ greater a b
  | Ordering.gt ↦ true
]

-- `IsInAlphabeticalOrder`
unfoldable pub is_in_alphabetical_order : Unicode → Text → IncludeState → IncludeState × Bool
unfolding greater
is_in_alphabetical_order u header_path st =
    let canonical_header = canonicalize_alphabetical_order u header_path in
    if greater st.last_header canonical_header
    then (st, false)
    else (record st { last_header = canonical_header }, true)

-- The section after a header of this type that is in order.
abbrev pub next_section : HeaderType → Section → Section
next_section c_sys_header s = c_section
next_section cpp_sys_header s = cpp_section
next_section likely_my_header s = if leb (rank s) 1 then my_h_section else other_h_section
next_section possible_my_header s = if leb (rank s) 1 then my_h_section else other_h_section
next_section other_header s = other_h_section

-- Whether a header of this type may still come.
abbrev pub in_order : HeaderType → Section → Bool
in_order c_sys_header s = leb (rank s) 2
in_order cpp_sys_header s = leb (rank s) 3
in_order _ s = true

-- `CheckNextIncludeOrder`: the empty text, or the message
unfoldable pub check_next_include_order : HeaderType → IncludeState → IncludeState × Text
check_next_include_order header_type st =
    let error_message =
      codes "Found " ++ type_name header_type ++ codes " after " ++ section_name st.section in
    let section = next_section header_type st.section in
    if not (in_order header_type st.section)
    then (record st { last_header = [] }, error_message)
    else if leb (rank section) (rank st.section) && leb (rank st.section) (rank section)
    then (record st { section = section }, [])
    else (record st { section = section; last_header = [] }, [])
