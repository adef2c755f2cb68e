-- ===== src/Nolint/Comment.antt =====
-- clint.py, `ParseNolintSuppressions` on a line that holds a comment NOLINT(category).
use mathlib.Core.List.{reverse_aux, reverse, reverse-append}
use dlmalloc.Prelude.{
  ℕ, suc, ◌-◌, true, false, [], ◌∷◌, ◌++◌, none, some, ◌≡◌, ◌≢◌, refl, sym, ap, ◌∙◌, ◌==◌, text_eq,
  arith, length, length-append, take, take-append, list_beq_iff, inl, inr, Bool-cases, All,
  append_assoc,
}
use dlmalloc.Text.{Text, codes, starts_with, ends_with}
use dlmalloc.Regex.{
  Regex, Class, Cursor, first_is_word, run, accept, search_from, search_in, ◌⨾◌, Then, char, star,
  group, close_group,
}
use dlmalloc.Regex.Patterns.{singles, lit, opt}
use dlmalloc.Regex.Scan.{InClass, cursor, run-star-InClass, search_from-skip}
use dlmalloc.Nolint.{on_category, parse_nolint_suppressions, re_suppression, inside}
use dlmalloc.Report.{suppress, is_error_category}

length-snoc : (c : Text) (y : ℕ) → length (c ++ y ∷ []) ≡ suc (length c)
length-snoc c y = omega (arith, length-append c (y ∷ []))

-- Text in parentheses, as the group of the pattern holds it.
abbrev enclosed : Text → Text
enclosed c = b'(' ∷ (c ++ b')' ∷ [])

take-length : (n : ℕ) (xs ys : Text) → n ≡ length xs → take n (xs ++ ys) ≡ xs
take-length n xs ys e = rw e (take-append xs ys)

inside-enclosed : (c : Text) → inside (enclosed c) ≡ c
inside-enclosed c =
    rw (length-snoc c b')') (take-length (suc (suc (length c)) - 2) c (b')' ∷ []) (omega arith))

ends_with-enclosed : (c : Text) → ends_with (enclosed c) (codes ")") ≡ true
unfolding ends_with
ends_with-enclosed c =
    let e : reverse (enclosed c) ≡ b')' ∷ reverse (b'(' ∷ c) =
      reverse-append (b'(' ∷ c) (b')' ∷ []) in
    rw e (unfold starts_with in refl)

star_is_no_category : (c : Text) → is_error_category c ≡ true → enclosed c ≢ codes "(*)"
unfolding is_error_category
star_is_no_category c known e =
    let is_star : c ≡ codes "*" = sym (inside-enclosed c) ∙ ap inside e in cc (rw is_star at known)

on_category-enclosed :
    (filename c : Text) (linenum : ℕ)
    → is_error_category c ≡ true
    → on_category filename linenum (some (enclosed c)) ≡ suppress (some c) linenum ∷ []
unfolding on_category starts_with
on_category-enclosed filename c linenum known = elim (Bool-cases (enclosed c == codes "(*)")) [
  | inl all ↦ absurd (star_is_no_category c known ((list_beq_iff (enclosed c) (codes "(*)")).0 all))
  | inr other ↦ rw (other, ends_with-enclosed c, inside-enclosed c, known)
]

fails_before :
    (x : ℕ) (past r : Text) → x ≢ b'N' → run re_suppression (cursor past (x ∷ r) []) accept ≡ none
unfolding run
fails_before x past r h = ground arith

-- `[^)]`
abbrev pub not_close : Class
not_close = record { negated = true; ranges = singles ")" }

-- The cursor behind NOLINT(c).
abbrev behind : Text → Text → Text → Cursor
behind past c after = cursor (b')' ∷ reverse_aux c (b'(' ∷ past)) after ((1, enclosed c) ∷ [])

abbrev re_enclosed : Regex
re_enclosed = group 1 (lit "(" ⨾ star (char not_close) ⨾ lit ")")

captured :
    (c after : Text)
    → take (length (b'(' ∷ (c ++ b')' ∷ after)) - length after) (b'(' ∷ (c ++ b')' ∷ after))
      ≡ enclosed c
captured c after =
    let e : c ++ b')' ∷ after ≡ (c ++ b')' ∷ []) ++ after =
      sym (append_assoc c (b')' ∷ []) after) in
    rw e (
      take-length (length (enclosed c ++ after) - length after) (enclosed c) after
        (omega (arith, length-append (enclosed c) after)))

run-group :
    (past c after : Text)
    → InClass not_close c
    → run re_enclosed (cursor past (b'(' ∷ (c ++ b')' ∷ after)) []) accept
      ≡ some (behind past c after)
unfolding run
run-group past c after i =
    let start : Cursor = cursor past (b'(' ∷ (c ++ b')' ∷ after)) [] in
    run-star-InClass not_close c (b')' ∷ after) (b'(' ∷ past) []
      (λ u. run (lit ")") u (λ v. accept (close_group 1 start v))) i refl
      (ap (λ (g : Text). some (cursor (b')' ∷ reverse_aux c (b'(' ∷ past)) after ((1, g) ∷ [])))
        (captured c after))

abbrev pub comment_end : Text → Text → Text
comment_end c after = b'(' ∷ (c ++ b')' ∷ after)

run-opt :
    (p : Regex) (s : Cursor) (k : Then) {t : Cursor} → run p s k ≡ some t → run (opt p) s k ≡ some t
unfolding run
run-opt p s k e = rw e

run-comment :
    (past c after : Text)
    → first_is_word past ≡ false
    → InClass not_close c
    → run re_suppression (cursor past (codes "NOLINT" ++ comment_end c after) []) accept
      ≡ some (behind (reverse_aux (codes "NOLINT") past) c after)
unfolding run
run-comment past c after edge i =
    let later = run-group (reverse_aux (codes "NOLINT") past) c after i in
    rw edge (
      run-opt re_enclosed (cursor (reverse_aux (codes "NOLINT") past) (comment_end c after) [])
        accept later)

search-comment :
    (before c after : Text)
    → All (λ x. x ≢ b'N') before
    → first_is_word (reverse before) ≡ false
    → InClass not_close c
    → search_in re_suppression (before ++ (codes "NOLINT" ++ comment_end c after))
      ≡ some (
        cursor (reverse before) (codes "NOLINT" ++ comment_end c after) [],
        behind (reverse_aux (codes "NOLINT") (reverse before)) c after,
      )
unfolding search_in search_from
search-comment before c after far edge i =
    search_from-skip re_suppression (λ x. x ≢ b'N') (λ x past r. fails_before x past r) before []
      (codes "NOLINT" ++ comment_end c after) far
    ∙ rw (run-comment (reverse before) c after edge i, search_from)

-- On a line with NOLINT(c), where c is one of the error categories and has no parenthesis that
-- closes, no letter N stands before and no word character directly before, exactly one thing
-- happens, whatever follows: errors of category c are suppressed on that line.
pub parse_nolint_suppressions-comment :
    (filename before c after : Text) (linenum : ℕ)
    → All (λ x. x ≢ b'N') before
    → first_is_word (reverse before) ≡ false
    → InClass not_close c
    → is_error_category c ≡ true
    → parse_nolint_suppressions filename (before ++ (codes "NOLINT" ++ comment_end c after)) linenum
      ≡ suppress (some c) linenum ∷ []
unfolding parse_nolint_suppressions
parse_nolint_suppressions-comment filename before c after linenum far edge i known =
    rw (search-comment before c after far edge i, parse_nolint_suppressions)
      (on_category-enclosed filename c linenum known)
