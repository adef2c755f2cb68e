-- ===== src/Tests/States.antt =====
-- Includes, function lengths and multi-line comments.
use Prim.Native.Nat.{min}
use dlmalloc.Prelude.{
  ℕ, ◌*◌, ◌^◌, ◌≤◌, ◌<◌, [], ◌∷◌, List, none, some, true, false, ◌≡◌, refl, ◌↔◌, ◌⊎◌, arith, pos,
  negsuc,
}
use dlmalloc.Text.{Text, codes}
use dlmalloc.Unicode.{Unicode}
use dlmalloc.Report.{error}
use dlmalloc.IncludeState
use dlmalloc.IncludeState.{
  HeaderType, c_sys_header, cpp_sys_header, likely_my_header, other_header,
  canonicalize_alphabetical_order,
}
use dlmalloc.IncludeState.Order.{
  check_all, all_empty, no_system_header, skip_while, is_cpp, is_c, may_be_mine, check_all-initial,
}
use dlmalloc.IncludeState.Alphabet.{all_alphabetical, Ascending, all_alphabetical_iff}
use dlmalloc.FunctionState.{FunctionState, base_trigger, check, long_function_message}
use dlmalloc.FunctionState.Trigger.{check-level, check-negative}
use dlmalloc.Cleanse.{
  remove_multi_line_comments, dummy, find_next_multi_line_comment_start,
  find_next_multi_line_comment_end, opens_comment, closes_comment, first_line,
  remove_multi_line_comments_from_range,
}

-- Tables that change nothing.
abbrev ascii : Unicode
ascii = record { wide_lower = λ c. c; wide_upper = λ c. c; wide_alnum = λ c. false }

canonical :
    canonicalize_alphabetical_order ascii (codes "Base/foo-bar-inl.h") ≡ codes "base/foo_bar.h"
unfolding canonicalize_alphabetical_order
canonical = refl

abbrev headers : List HeaderType
headers = likely_my_header ∷ c_sys_header ∷ cpp_sys_header ∷ other_header ∷ []

check_all-initial_example :
    all_empty (check_all headers IncludeState.initial).1
    ≡ no_system_header (skip_while is_cpp (skip_while is_c (skip_while may_be_mine headers)))
check_all-initial_example = check_all-initial headers

all_alphabetical_iff_example :
    (all_alphabetical ascii (codes "a.h" ∷ codes "b.h" ∷ []) IncludeState.initial ≡ true)
    ↔ Ascending ascii [] (codes "a.h" ∷ codes "b.h" ∷ [])
all_alphabetical_iff_example =
    all_alphabetical_iff ascii (codes "a.h" ∷ codes "b.h" ∷ []) IncludeState.initial

abbrev long_body : FunctionState
long_body = record { in_a_function = true; lines_in_function = 600; current_function = codes "f()" }

check-level_example :
    let base = base_trigger (codes "f()") in
    ((600 ≤ base * 2 ^ 1) × (check (pos 1) (codes "a.c") 9 long_body ≡ some []))
    ⊎ ((base * 2 ^ 1 < 600)
        × ((confidence : ℕ) × (check (pos 1) (codes "a.c") 9 long_body
              ≡ some (
                  error
                    (codes "a.c")
                    9
                    (codes "readability/fn_size")
                    confidence
                    (long_function_message (codes "f()") 600 (base * 2 ^ 1))
                  ∷ []))
            × (confidence ≤ 5)
            × (min 5 1 ≤ confidence)))
check-level_example = check-level 1 (codes "a.c") 9 long_body

abbrev short_body : FunctionState
short_body = record {
  in_a_function = true;
  lines_in_function = 200;
  current_function = codes "f()";
}

base_trigger-f : base_trigger (codes "f()") ≡ 250
unfolding base_trigger
base_trigger-f = refl

-- A body of 200 lines at --verbose=-1.
check-negative_example : check (negsuc 0) (codes "a.c") 9 short_body ≡ none
check-negative_example =
    check-negative 0 (codes "a.c") 9 short_body (omega (arith, base_trigger-f))
      (omega (arith, base_trigger-f))

abbrev source : List Text
source = codes "a /* b */" ∷ codes "/* c" ∷ codes "d */" ∷ codes "e" ∷ []

remove-source :
    remove_multi_line_comments (codes "a.c") source
    ≡ some (codes "a /* b */" ∷ dummy ∷ dummy ∷ codes "e" ∷ [], [])
unfolding remove_multi_line_comments find_next_multi_line_comment_start
    find_next_multi_line_comment_end opens_comment closes_comment first_line
    remove_multi_line_comments_from_range
remove-source = refl
