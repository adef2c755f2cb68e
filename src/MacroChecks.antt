-- ===== src/MacroChecks.antt =====
-- clint.py: `CheckCheck`, which suggests CHECK_EQ and the like for CHECK and EXPECT macros.
pub mod Suggested
use dlmalloc.Prelude.{
  ℕ, Bool, true, false, not, ◌&&◌, List, [], ◌∷◌, ◌++◌, Option, none, some, if◌then◌else◌,
}
use dlmalloc.Text.{Text, codes, occurs}
use dlmalloc.Regex.{Regex, ◌⨾◌, ◌⊕◌, star, group, matches, found}
use dlmalloc.Regex.Patterns.{
  lit, literally, one_of, none_of, spaces, singles, digits, space, dot, plus, opt, at_most,
}
use dlmalloc.Report.{Event, error}

-- `_CHECK_MACROS`
pub data Macro : Type 0 where
  dcheck check expect_true_m expect_true assert_true_m assert_true expect_false_m expect_false
        assert_false_m assert_false :
      Macro

abbrev pub macro_name : Macro → Text
macro_name dcheck = codes "DCHECK"
macro_name check = codes "CHECK"
macro_name expect_true_m = codes "EXPECT_TRUE_M"
macro_name expect_true = codes "EXPECT_TRUE"
macro_name assert_true_m = codes "ASSERT_TRUE_M"
macro_name assert_true = codes "ASSERT_TRUE"
macro_name expect_false_m = codes "EXPECT_FALSE_M"
macro_name expect_false = codes "EXPECT_FALSE"
macro_name assert_false_m = codes "ASSERT_FALSE_M"
macro_name assert_false = codes "ASSERT_FALSE"

-- In the order in which they are tried.
abbrev pub check_macros : List Macro
check_macros =
    dcheck ∷ check ∷ expect_true_m ∷ expect_true ∷ assert_true_m ∷ assert_true ∷ expect_false_m
    ∷ expect_false ∷ assert_false_m ∷ assert_false ∷ []

pub data Operator : Type 0 where
  equal not_equal at_least above at_most_op below : Operator

abbrev pub symbol : Operator → Text
symbol equal = codes "=="
symbol not_equal = codes "!="
symbol at_least = codes ">="
symbol above = codes ">"
symbol at_most_op = codes "<="
symbol below = codes "<"

abbrev pub operators : List Operator
operators = equal ∷ not_equal ∷ at_least ∷ above ∷ at_most_op ∷ below ∷ []

-- The `replacement` of an operator.
abbrev pub suffix : Operator → Text
suffix equal = codes "EQ"
suffix not_equal = codes "NE"
suffix at_least = codes "GE"
suffix above = codes "GT"
suffix at_most_op = codes "LE"
suffix below = codes "LT"

-- The `inv_replacement` of an operator.
abbrev pub inverse_suffix : Operator → Text
inverse_suffix equal = codes "NE"
inverse_suffix not_equal = codes "EQ"
inverse_suffix at_least = codes "LT"
inverse_suffix above = codes "LE"
inverse_suffix at_most_op = codes "GT"
inverse_suffix below = codes "GE"

-- `_CHECK_REPLACEMENT[macro][operator]`
unfoldable pub check_replacement : Macro → Operator → Text
check_replacement dcheck op = codes "DCHECK_" ++ suffix op
check_replacement check op = codes "CHECK_" ++ suffix op
check_replacement expect_true op = codes "EXPECT_" ++ suffix op
check_replacement assert_true op = codes "ASSERT_" ++ suffix op
check_replacement expect_true_m op = codes "EXPECT_" ++ suffix op ++ codes "_M"
check_replacement assert_true_m op = codes "ASSERT_" ++ suffix op ++ codes "_M"
check_replacement expect_false op = codes "EXPECT_" ++ inverse_suffix op
check_replacement assert_false op = codes "ASSERT_" ++ inverse_suffix op
check_replacement expect_false_m op = codes "EXPECT_" ++ inverse_suffix op ++ codes "_M"
check_replacement assert_false_m op = codes "ASSERT_" ++ inverse_suffix op ++ codes "_M"

-- `match_constant`
abbrev pub re_constant : Regex
re_constant = group 1 (
    opt (one_of (singles "-+"))
      ⨾ group 2 (
          plus (one_of digits)
          ⊕ lit "0"
            ⨾ one_of (singles "xX")
            ⨾ plus (one_of (((b'0', b'9') ∷ []) ++ ((b'a', b'f') ∷ []) ++ ((b'A', b'F') ∷ []))))
      ⨾ at_most 3 (one_of (singles "lLuU"))
    ⊕ lit "\"" ⨾ star dot ⨾ lit "\""
    ⊕ lit "'" ⨾ star dot ⨾ lit "'")

-- `match_this`
unfoldable pub re_replaceable : Text → Text → Regex
re_replaceable operator macro =
    star space
    ⨾ literally macro
    ⨾ lit "("
    ⨾ group 1 (
        star space
          ⨾ re_constant
          ⨾ star space
          ⨾ literally operator
          ⨾ none_of (singles "<>")
          ⨾ star dot
        ⊕ star dot
          ⨾ none_of (singles "<>")
          ⨾ literally operator
          ⨾ star space
          ⨾ re_constant
          ⨾ star space
          ⨾ lit ")")

-- NULL|&&|\|\|
abbrev pub re_not_replaceable : Regex
re_not_replaceable = (lit "NULL" ⊕ lit "&&" ⊕ lit "||")

-- `ReplaceableCheck`
unfoldable pub replaceable_check : Text → Text → Text → Bool
replaceable_check operator macro line =
    matches (re_replaceable operator macro) line && not (found re_not_replaceable line)

-- The first macro whose name stands in the line.
unfoldable pub find_macro : List Macro → Text → Option Macro
find_macro [] line = none
find_macro (macro ∷ macros) line =
    if occurs (macro_name macro) line then some macro else find_macro macros line

-- The first operator that can be replaced.
unfoldable pub find_operator : List Operator → Macro → Text → Option Operator
find_operator [] macro line = none
find_operator (operator ∷ more) macro line =
    if replaceable_check (symbol operator) (macro_name macro) line
    then some operator
    else find_operator more macro line

-- `CheckCheck`, for `raw_lines[linenum]` and `elided[linenum]`
unfoldable pub check_check : Text → Text → Text → ℕ → List Event
check_check filename raw_line line linenum = elim (find_macro check_macros raw_line) [
  | none ↦ []
  | some macro ↦ elim (find_operator operators macro line) [
    | none ↦ []
    | some operator ↦
        error filename linenum (codes "readability/check") 2 (
          codes "Consider using "
          ++ check_replacement macro operator
          ++ codes " instead of "
          ++ macro_name macro
          ++ codes "(a "
          ++ symbol operator
          ++ codes " b)")
        ∷ []
  ]
]
