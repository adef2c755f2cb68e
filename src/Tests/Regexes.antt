-- ===== src/Tests/Regexes.antt =====
-- Patterns of clint.py and the comments that they find, and calls of Match and Search.
use dlmalloc.Prelude.{
  ℕ, ◌++◌, List, [], ◌∷◌, none, some, true, false, ◌≡◌, refl, arith, ◌==◌, text_eq, if◌then◌else◌,
}
use dlmalloc.Text.{Text, codes, starts_with, find}
use dlmalloc.Regex.{matches, search_in, in_class}
use dlmalloc.Regex.Cache.{
  Re, Call, match, search, value, store_compiled, call_method, match_cached, search_cached,
  call_cached, call_all,
}
use dlmalloc.Regex.Cache.Transparent.{results_of, call_all_fresh, results_of-call_all}
use dlmalloc.Regex.Scan.{cursor}
use dlmalloc.Nolint.{parse_nolint_suppressions, on_category, re_suppression}
use dlmalloc.Nolint.Comment.{comment_end, parse_nolint_suppressions-comment}
use dlmalloc.Report.{suppress, is_error_category}
use dlmalloc.FunctionState.{re_function_end, starts_function}
use dlmalloc.Cleanse.{cleanse_comments, collapse_strings, is_cpp_string}

search-nolint :
    search_in re_suppression (codes "x; // NOLINT")
    ≡ some (cursor (codes " // ;x") (codes "NOLINT") [], cursor (codes "TNILON // ;x") [] [])
unfolding search_in
search-nolint = refl

matches-function_end : matches re_function_end (codes "}  ") ≡ true
unfolding matches
matches-function_end = refl

starts_function-lines :
    (starts_function (codes "int foo(int a) {") ≡ true)
    × (starts_function (codes "DISALLOW_COPY(Foo);") ≡ false)
    × (starts_function (codes "  return f(x);") ≡ false)
unfolding starts_function matches
starts_function-lines = (refl, refl, refl)

cleanse-lines :
    (cleanse_comments (codes "a = b;  // why") ≡ codes "a = b;")
    × (cleanse_comments (codes "f(/* in */ x, y /* out */);") ≡ codes "f(x, y);")
    × (cleanse_comments (codes "s = \"//\";") ≡ codes "s = \"//\";")
    × (collapse_strings (codes "p(\"a\\\"b\", 'c');") ≡ codes "p(\"\", '');")
unfolding cleanse_comments collapse_strings is_cpp_string
cleanse-lines = (refl, refl, refl, refl)

nolint-lines :
    (parse_nolint_suppressions (codes "a.c") (codes "x  // NOLINT") 3 ≡ suppress none 3 ∷ [])
    × (parse_nolint_suppressions (codes "a.c") (codes "x  // NOLINT(*)") 3 ≡ suppress none 3 ∷ [])
    × (parse_nolint_suppressions (codes "a.c") (codes "x  // NOLINTER") 3 ≡ [])
unfolding parse_nolint_suppressions on_category search_in
nolint-lines = (refl, refl, refl)

-- A stand-in for `re`: a pattern is a text to look for, and none but the empty one is refused.
abbrev plain_re : Re Text ℕ
plain_re = record {
  compile = λ pattern. if pattern == [] then none else some pattern;
  match_with = λ p s. if starts_with s p then some 0 else none;
  search_with = λ p s. find s p;
}

abbrev some_calls : List Call
some_calls =
    search (codes "int") (codes "an int")
    ∷ match (codes "int") (codes "an int")
    ∷ search (codes "int") (codes "int")
    ∷ []

results_of-call_all_example :
    results_of plain_re (call_all plain_re some_calls []) ≡ call_all_fresh plain_re some_calls
results_of-call_all_example = results_of-call_all plain_re some_calls

-- Those results.
plain_re_calls :
    call_all plain_re some_calls []
    ≡ value (some 3 ∷ none ∷ some 0 ∷ [], (codes "int", codes "int") ∷ [])
unfolding call_all call_cached match_cached search_cached store_compiled call_method starts_with
    find
plain_re_calls = refl

parse_nolint_suppressions-comment_example :
    parse_nolint_suppressions
      (codes "a.c")
      (codes "x = 1; // " ++ (codes "NOLINT" ++ comment_end (codes "build/class") (codes " ok")))
      7
    ≡ suppress (some (codes "build/class")) 7 ∷ []
unfolding in_class is_error_category
parse_nolint_suppressions-comment_example =
    parse_nolint_suppressions-comment (codes "a.c") (codes "x = 1; // ") (codes "build/class")
      (codes " ok") 7 (omega arith) refl (ground arith) refl
