-- ===== src/LintState/Counts.antt =====
-- clint.py, `IncrementErrorCount` over a whole run: what the counters hold at its end.
use dlmalloc.Prelude.{
  ℕ, ◌+◌, true, List, [], ◌∷◌, none, some, ◌≡◌, refl, ◌∙◌, ◌==◌, text_eq, arith, length,
  if◌then◌else◌, list_beq_iff,
}
use dlmalloc.Prelude.Dict.{lookup, lookup-insert}
use dlmalloc.Text.{Text}
use dlmalloc.LintState.{
  LintState, one_more, bump, counts_categories, counted_as, increment_error_count,
  reset_error_counts,
}

abbrev pub count_under : Text → List (Text × ℕ) → ℕ
count_under key counts = elim (lookup key counts) [ none ↦ 0 | some n ↦ n ]

-- One call for each error, in order.
unfoldable pub increment_all : List Text → LintState → LintState
increment_all [] st = st
increment_all (category ∷ more) st = increment_all more (increment_error_count category st)

-- How many of the errors are counted under this key.
abbrev pub errors_under : Text → Text → List Text → ℕ
errors_under counting key [] = 0
errors_under counting key (category ∷ more) =
    (if key == counted_as counting category then 1 else 0) + errors_under counting key more

abbrev pub sum : List (Text × ℕ) → ℕ
sum [] = 0
sum ((key, n) ∷ counts) = n + sum counts

count_under-bump :
    (key category : Text) (counts : List (Text × ℕ))
    → count_under key (bump category counts)
      ≡ (if key == category then 1 else 0) + count_under key counts
count_under-bump key category counts = ground (
  arith,
  lookup-insert key category (one_more (lookup category counts)) counts,
  list_beq_iff key category,
)

sum-bump :
    (category : Text) (counts : List (Text × ℕ)) → sum (bump category counts) ≡ sum counts + 1
sum-bump category [] = refl
sum-bump category ((key, n) ∷ counts) = ground (arith, sum-bump category counts)

increment_keeps :
    (category : Text) (st : LintState) → (increment_error_count category st).counting ≡ st.counting
unfolding increment_error_count
increment_keeps category st = ground arith

pub increment_options :
    (category : Text) (st : LintState)
    → let end = increment_error_count category st in
      (end.filters ≡ st.filters)
      × (end.verbose_level ≡ st.verbose_level)
      × (end.counting ≡ st.counting)
      × (end.output_format ≡ st.output_format)
      × (end.error_count ≡ st.error_count + 1)
unfolding increment_error_count
increment_options category st = ground arith

increment_counts :
    (counting category : Text) (st : LintState)
    → st.counting ≡ counting
    → counts_categories counting ≡ true
    → ((key : Text)
        → count_under key (increment_error_count category st).errors_by_category
          ≡ (if key == counted_as counting category then 1 else 0)
            + count_under key st.errors_by_category)
      × (sum (increment_error_count category st).errors_by_category ≡ sum st.errors_by_category + 1)
      × ((increment_error_count category st).error_count ≡ st.error_count + 1)
unfolding increment_error_count
increment_counts counting category st e h = (
  λ key. ground (arith, count_under-bump key (counted_as counting category) st.errors_by_category),
  ground (arith, sum-bump (counted_as counting category) st.errors_by_category),
  ground arith,
)

increment_all-counts :
    (counting : Text) (categories : List Text) (st : LintState)
    → st.counting ≡ counting
    → counts_categories counting ≡ true
    → ((key : Text)
        → count_under key (increment_all categories st).errors_by_category
          ≡ errors_under counting key categories + count_under key st.errors_by_category)
      × (sum (increment_all categories st).errors_by_category
          ≡ sum st.errors_by_category + length categories)
      × ((increment_all categories st).error_count ≡ st.error_count + length categories)
unfolding increment_all
increment_all-counts counting [] st e h = (λ key. omega arith, omega arith, omega arith)
increment_all-counts counting (category ∷ more) st e h =
    let (own, total, number) = increment_counts counting category st e h in
    let (own', total', number') =
      increment_all-counts counting more (increment_error_count category st)
        (increment_keeps category st ∙ e) h in
    (λ key. omega (arith, own key, own' key), omega arith, omega arith)

-- With --counting=toplevel or detailed, after ResetErrorCounts and one IncrementErrorCount for
-- each of some errors: the total is their number, the counts by category add up to it, and the
-- count under each key is the number of errors that are counted under that key.
pub increment_all-reset :
    (categories : List Text) (st : LintState)
    → counts_categories st.counting ≡ true
    → let end = increment_all categories (reset_error_counts st) in
      (end.error_count ≡ length categories)
      × (sum end.errors_by_category ≡ end.error_count)
      × ((key : Text)
          → count_under key end.errors_by_category ≡ errors_under st.counting key categories)
unfolding reset_error_counts
increment_all-reset categories st h =
    let (own, total, number) =
      increment_all-counts st.counting categories (reset_error_counts st) refl h in
    (omega arith, omega arith, λ key. omega (arith, own key))
