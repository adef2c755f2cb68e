-- ===== src/Report.antt =====
-- clint.py: what a check does to the rest of the program. A check is a function that returns,
-- in order, its calls of the error handler and the suppressions that it records; `Session` runs
-- them. Also the module's constants that only messages and filters use.
pub mod Lines
use dlmalloc.Prelude.{
  ℕ, zero, suc, ◌+◌, ◌/◌, ◌%◌, Option, List, [], ◌∷◌, ◌++◌, ℤ, pos, negsuc, ltb, if◌then◌else◌,
  Bool, false, true, contains, text_eq,
}
use dlmalloc.Text.{Text, codes}

-- The arguments of a call `error(filename, linenum, category, confidence, message)`.
pub record Diagnostic : Type 0 where
  pub filename : Text
  pub linenum : ℤ
  pub category : Text
  pub confidence : ℕ
  pub message : Text

pub data Event : Type 0 where
  report : Diagnostic → Event
  suppress : Option Text → ℕ → Event

abbrev pub error : Text → ℕ → Text → ℕ → Text → Event
error filename linenum category confidence message = report (record {
  filename = filename;
  linenum = pos linenum;
  category = category;
  confidence = confidence;
  message = message;
})

-- `if test: ...`, for a body that only emits
abbrev pub when : Bool → List Event → List Event
when true events = events
when false events = []

digits_from : ℕ → ℕ → Text
digits_from zero n = []
digits_from (suc fuel) n =
    let more = digits_from fuel (n / 10) ++ (b'0' + n % 10) ∷ [] in
    if ltb n 10 then (b'0' + n) ∷ [] else more

-- `'%d' % n`
unfoldable pub show : ℕ → Text
unfolding digits_from
show n = digits_from (suc n) n

unfoldable pub show_int : ℤ → Text
unfolding show
show_int (pos n) = show n
show_int (negsuc n) = b'-' ∷ show (suc n)

-- `class bcolors`
abbrev pub fail : Text
fail = 27 ∷ codes "[91m"

abbrev pub okblue : Text
okblue = 27 ∷ codes "[94m"

abbrev pub warning : Text
warning = 27 ∷ codes "[93m"

abbrev pub bold : Text
bold = 27 ∷ codes "[1m"

abbrev pub endc : Text
endc = 27 ∷ codes "[0m"

unfoldable pub color : Text → Text → Text
color text c = c ++ text ++ endc

-- `_ERROR_CATEGORIES`
unfoldable pub error_categories : List Text
error_categories =
    codes "build/class"
    ∷ codes "build/deprecated"
    ∷ codes "build/endif_comment"
    ∷ codes "build/explicit_make_pair"
    ∷ codes "build/forward_decl"
    ∷ codes "build/header_guard"
    ∷ codes "build/include"
    ∷ codes "build/include_alpha"
    ∷ codes "build/include_order"
    ∷ codes "build/include_what_you_use"
    ∷ codes "build/namespaces"
    ∷ codes "build/printf_format"
    ∷ codes "build/storage_class"
    ∷ codes "legal/copyright"
    ∷ codes "readability/braces"
    ∷ codes "readability/casting"
    ∷ codes "readability/check"
    ∷ codes "readability/constructors"
    ∷ codes "readability/fn_size"
    ∷ codes "readability/function"
    ∷ codes "readability/multiline_comment"
    ∷ codes "readability/multiline_string"
    ∷ codes "readability/nolint"
    ∷ codes "readability/streams"
    ∷ codes "readability/todo"
    ∷ codes "readability/utf8"
    ∷ codes "runtime/arrays"
    ∷ codes "runtime/casting"
    ∷ codes "runtime/explicit"
    ∷ codes "runtime/int"
    ∷ codes "runtime/init"
    ∷ codes "runtime/invalid_increment"
    ∷ codes "runtime/member_string_references"
    ∷ codes "runtime/memset"
    ∷ codes "runtime/operator"
    ∷ codes "runtime/printf"
    ∷ codes "runtime/printf_format"
    ∷ codes "runtime/references"
    ∷ codes "runtime/rtti"
    ∷ codes "runtime/sizeof"
    ∷ codes "runtime/string"
    ∷ codes "runtime/threadsafe_fn"
    ∷ codes "runtime/virtual"
    ∷ codes "whitespace/blank_line"
    ∷ codes "whitespace/braces"
    ∷ codes "whitespace/comma"
    ∷ codes "whitespace/comments"
    ∷ codes "whitespace/end_of_line"
    ∷ codes "whitespace/ending_newline"
    ∷ codes "whitespace/indent"
    ∷ codes "whitespace/labels"
    ∷ codes "whitespace/line_length"
    ∷ codes "whitespace/newline"
    ∷ codes "whitespace/operators"
    ∷ codes "whitespace/parens"
    ∷ codes "whitespace/semicolon"
    ∷ codes "whitespace/tab"
    ∷ codes "whitespace/todo"
    ∷ []

-- `category in _ERROR_CATEGORIES`
unfoldable pub is_error_category : Text → Bool
unfolding error_categories
is_error_category category = contains error_categories category
