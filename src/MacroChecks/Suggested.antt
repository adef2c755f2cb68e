-- ===== src/MacroChecks/Suggested.antt =====
-- clint.py, `_CHECK_REPLACEMENT`: the macro that is suggested asserts the same.
use dlmalloc.Prelude.{
  ℕ, ◌≡◌, refl, ap, sym, ◌∙◌, Bool, true, false, not, [], ◌++◌, append-nil, arith, ltb, leb,
  if◌then◌else◌, ◌==◌, nat_eq,
}
use dlmalloc.Text.{Text, codes}
use dlmalloc.MacroChecks.{
  Macro, dcheck, check, expect_true_m, expect_true, assert_true_m, assert_true, expect_false_m,
  expect_false, assert_false_m, assert_false, Operator, equal, not_equal, at_least, above,
  at_most_op, below, suffix, inverse_suffix, check_replacement,
}

-- What a comparison of two numbers says.
unfoldable pub holds : Operator → ℕ → ℕ → Bool
holds equal a b = a == b
holds not_equal a b = not (a == b)
holds at_least a b = leb b a
holds above a b = ltb b a
holds at_most_op a b = leb a b
holds below a b = ltb a b

-- Whether the macro asserts that its argument is false.
abbrev pub asserts_false : Macro → Bool
asserts_false expect_false_m = true
asserts_false expect_false = true
asserts_false assert_false_m = true
asserts_false assert_false = true
asserts_false _ = false

abbrev inverse : Operator → Operator
inverse equal = not_equal
inverse not_equal = equal
inverse at_least = below
inverse above = at_most_op
inverse at_most_op = above
inverse below = at_least

inverse_lem : (op : Operator) (a b : ℕ) → holds (inverse op) a b ≡ not (holds op a b)
unfolding holds
inverse_lem equal a b = refl
inverse_lem not_equal a b = ground arith
inverse_lem at_least a b = ground arith
inverse_lem above a b = ground arith
inverse_lem at_most_op a b = ground arith
inverse_lem below a b = ground arith

inverse-suffix : (op : Operator) → suffix (inverse op) ≡ inverse_suffix op
inverse-suffix equal = refl
inverse-suffix not_equal = refl
inverse-suffix at_least = refl
inverse-suffix above = refl
inverse-suffix at_most_op = refl
inverse-suffix below = refl

-- The comparison whose name stands in a suggestion.
abbrev pub suggested : Macro → Operator → Operator
suggested m op = if asserts_false m then inverse op else op

-- How the names of the macros for comparisons begin and end.
abbrev pub family : Macro → Text
family dcheck = codes "DCHECK_"
family check = codes "CHECK_"
family expect_true_m = codes "EXPECT_"
family expect_true = codes "EXPECT_"
family assert_true_m = codes "ASSERT_"
family assert_true = codes "ASSERT_"
family expect_false_m = codes "EXPECT_"
family expect_false = codes "EXPECT_"
family assert_false_m = codes "ASSERT_"
family assert_false = codes "ASSERT_"

abbrev pub ending : Macro → Text
ending expect_true_m = codes "_M"
ending assert_true_m = codes "_M"
ending expect_false_m = codes "_M"
ending assert_false_m = codes "_M"
ending _ = []

agrees :
    (m : Macro) (op : Operator) (a b : ℕ)
    → holds (suggested m op) a b ≡ (if asserts_false m then not (holds op a b) else holds op a b)
agrees dcheck op a b = refl
agrees expect_false_m op a b = inverse_lem op a b
agrees expect_false op a b = inverse_lem op a b
agrees assert_false_m op a b = inverse_lem op a b
agrees assert_false op a b = inverse_lem op a b
agrees _ op a b = refl

named :
    (m : Macro) (op : Operator)
    → check_replacement m op ≡ family m ++ suffix (suggested m op) ++ ending m
unfolding check_replacement
named expect_true_m op = refl
named assert_true_m op = refl
named expect_false_m op = ap (λ t. codes "EXPECT_" ++ t ++ codes "_M") (sym (inverse-suffix op))
named assert_false_m op = ap (λ t. codes "ASSERT_" ++ t ++ codes "_M") (sym (inverse-suffix op))
named expect_false op =
    ap (λ t. codes "EXPECT_" ++ t) (sym (append-nil (suffix (inverse op)) ∙ inverse-suffix op))
named assert_false op =
    ap (λ t. codes "ASSERT_" ++ t) (sym (append-nil (suffix (inverse op)) ∙ inverse-suffix op))
named dcheck op = ap (λ t. codes "DCHECK_" ++ t) (sym (append-nil (suffix op)))
named check op = ap (λ t. codes "CHECK_" ++ t) (sym (append-nil (suffix op)))
named expect_true op = ap (λ t. codes "EXPECT_" ++ t) (sym (append-nil (suffix op)))
named assert_true op = ap (λ t. codes "ASSERT_" ++ t) (sym (append-nil (suffix op)))

-- For each macro and operator, the suggested name is that of a comparison, between the beginning
-- and the ending that belong to the macro; and for all numbers the comparison says the same as
-- the given one, or the opposite if the macro asserts that its argument is false.
pub check_replacement_lem :
    (m : Macro) (op : Operator)
    → (op' : Operator) × (check_replacement m op ≡ family m ++ suffix op' ++ ending m)
      × ((a b : ℕ) → holds op' a b ≡ (if asserts_false m then not (holds op a b) else holds op a b))
unfolding check_replacement
check_replacement_lem m op = (suggested m op, named m op, λ a b. agrees m op a b)
