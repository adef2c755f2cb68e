-- ===== src/IncludeState/Order.antt =====
-- clint.py, `CheckNextIncludeOrder` over all headers of a file.
use dlmalloc.Prelude.{
  ◌≤◌, Bool, true, false, List, [], ◌∷◌, ◌≡◌, ◌≢◌, refl, ◌↔◌, sym, ◌∙◌, arith, not, ◌||◌, ◌&&◌,
  if◌then◌else◌,
}
use dlmalloc.Text.{Text}
use dlmalloc.IncludeState.{
  HeaderType, c_sys_header, cpp_sys_header, likely_my_header, possible_my_header, other_header,
  Section, initial_section, c_section, cpp_section, other_h_section, rank, IncludeState, initial,
  in_order, next_section, check_next_include_order,
}

-- A header is reported exactly if it is a C system header after the C section, or a C++ system
-- header after the C++ section; then the section stays.
pub check_next_include_order_lem :
    (h : HeaderType) (st : IncludeState)
    → ((check_next_include_order h st).1 ≢ [] ↔ in_order h st.section ≡ false)
unfolding check_next_include_order
check_next_include_order_lem h st = ground arith

-- The section never goes back, whatever header comes.
pub section_mono :
    (h : HeaderType) (st : IncludeState)
    → rank st.section ≤ rank (check_next_include_order h st).0.section
unfolding check_next_include_order
section_mono h st = ground arith

-- One call for each header, with the messages in order.
unfoldable pub check_all : List HeaderType → IncludeState → IncludeState × List Text
check_all [] st = (st, [])
check_all (h ∷ hs) st =
    let (next, message) = check_next_include_order h st in
    let (end, messages) = check_all hs next in (end, message ∷ messages)

abbrev pub all_empty : List Text → Bool
all_empty [] = true
all_empty ([] ∷ messages) = all_empty messages
all_empty ((x ∷ m) ∷ messages) = false

-- Headers that may belong to the file, and headers that may stand in the last section.
abbrev pub may_be_mine : HeaderType → Bool
may_be_mine likely_my_header = true
may_be_mine possible_my_header = true
may_be_mine _ = false

abbrev pub is_c : HeaderType → Bool
is_c c_sys_header = true
is_c _ = false

abbrev pub is_cpp : HeaderType → Bool
is_cpp cpp_sys_header = true
is_cpp _ = false

abbrev pub skip_while : (HeaderType → Bool) → List HeaderType → List HeaderType
skip_while p [] = []
skip_while p (h ∷ hs) = if p h then skip_while p hs else h ∷ hs

abbrev pub no_system_header : List HeaderType → Bool
no_system_header [] = true
no_system_header (h ∷ hs) = not (is_c h || is_cpp h) && no_system_header hs

-- What is left must hold no system header, from each section on.
abbrev pub is_ordered_from : Section → List HeaderType → Bool
is_ordered_from other_h_section hs = no_system_header hs
is_ordered_from cpp_section hs = no_system_header (skip_while is_cpp hs)
is_ordered_from c_section hs = no_system_header (skip_while is_cpp (skip_while is_c hs))
is_ordered_from _ hs =
    no_system_header (skip_while is_cpp (skip_while is_c (skip_while may_be_mine hs)))

is_ordered_from-cons :
    (h : HeaderType) (hs : List HeaderType) (s : Section)
    → is_ordered_from s (h ∷ hs) ≡ (in_order h s && is_ordered_from (next_section h s) hs)
is_ordered_from-cons c_sys_header hs initial_section = refl
is_ordered_from-cons cpp_sys_header hs initial_section = refl
is_ordered_from-cons likely_my_header hs initial_section = refl
is_ordered_from-cons possible_my_header hs initial_section = refl
is_ordered_from-cons other_header hs initial_section = refl
is_ordered_from-cons h hs s = refl

is_ordered_from-nil : (s : Section) → is_ordered_from s [] ≡ true
is_ordered_from-nil initial_section = refl
is_ordered_from-nil s = refl

check_message :
    (h : HeaderType) (st : IncludeState) (messages : List Text)
    → all_empty ((check_next_include_order h st).1 ∷ messages)
      ≡ (in_order h st.section && all_empty messages)
unfolding check_next_include_order
check_message h st messages = ground arith

check_section :
    (h : HeaderType) (st : IncludeState)
    → in_order h st.section ≡ true
    → (check_next_include_order h st).0.section ≡ next_section h st.section
unfolding check_next_include_order
check_section h st ok = ground arith

check_all-ordered :
    (hs : List HeaderType) (st : IncludeState)
    → all_empty (check_all hs st).1 ≡ is_ordered_from st.section hs
unfolding check_all
check_all-ordered [] st = sym (is_ordered_from-nil st.section)
check_all-ordered (h ∷ hs) st =
    let (next, message) = check_next_include_order h st in
    check_message h st (check_all hs next).1
    ∙ ground
        (arith, check_section h st, check_all-ordered hs next, is_ordered_from-cons h hs st.section)

-- Over the headers of a file, CheckNextIncludeOrder reports nothing exactly when they come so:
-- headers that may be the file's own, then C system headers, then C++ system headers, each of
-- these groups perhaps empty, and then no system header any more. Among the last ones, headers of
-- the file itself and others come in any order.
pub check_all-initial :
    (hs : List HeaderType)
    → all_empty (check_all hs initial).1
      ≡ no_system_header (skip_while is_cpp (skip_while is_c (skip_while may_be_mine hs)))
check_all-initial hs = check_all-ordered hs initial
