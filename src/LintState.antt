-- ===== src/LintState.antt =====
-- clint.py, `class _CppLintState`: the options of a run and the count of its errors.
pub mod Counts
pub mod Filters
use mathlib.Core.List.{map}
use dlmalloc.Prelude.{
  ℕ, ◌+◌, Bool, not, ◌||◌, List, [], ◌∷◌, ◌++◌, Option, none, some, ℤ, pos, ◌==◌, text_eq,
  if◌then◌else◌, nat_eq,
}
use dlmalloc.Prelude.Dict.{lookup, insert}
use dlmalloc.Text.{Text, codes, starts_with, strip, split}
use dlmalloc.Report.{show, color, fail, okblue, bold}

pub record LintState : Type 0 where
  pub verbose_level : ℤ
  pub error_count : ℕ
  pub filters : List Text
  pub counting : Text
  pub errors_by_category : List (Text × ℕ)
  pub output_format : Text

-- `_DEFAULT_FILTERS`
abbrev pub default_filters : List Text
default_filters = codes "-build/include_alpha" ∷ []

-- `__init__`
abbrev pub initial : LintState
initial = record {
  verbose_level = pos 1;
  error_count = 0;
  filters = default_filters;
  counting = codes "total";
  errors_by_category = [];
  output_format = codes "emacs";
}

unfoldable pub set_output_format : Text → LintState → LintState
set_output_format output_format st = record st { output_format = output_format }

-- The previous level is returned.
unfoldable pub set_verbose_level : ℤ → LintState → LintState × ℤ
set_verbose_level level st = (record st { verbose_level = level }, st.verbose_level)

unfoldable pub set_counting_style : Text → LintState → LintState
set_counting_style counting_style st = record st { counting = counting_style }

-- The filters that are not empty, stripped, behind those already there.
add_filters : List Text → List Text → List Text
add_filters filters [] = filters
add_filters filters (filt ∷ more) =
    let clean_filt = strip filt in
    add_filters (if clean_filt == [] then filters else filters ++ clean_filt ∷ []) more

abbrev pub is_signed : Text → Bool
is_signed filt = starts_with filt (codes "+") || starts_with filt (codes "-")

-- The first filter with no sign, for which ValueError is raised.
unfoldable pub unsigned_filter : List Text → Option Text
unsigned_filter [] = none
unsigned_filter (filt ∷ filters) =
    if not (is_signed filt) then some filt else unsigned_filter filters

-- The filters are stored before they are tested, so they stay when ValueError is raised. The
-- second result is the filter that the error names.
unfoldable pub set_filters : Text → LintState → LintState × Option Text
unfolding add_filters unsigned_filter strip split
set_filters text st =
    let filters = add_filters default_filters (split b',' text) in
    (record st { filters = filters }, unsigned_filter filters)

unfoldable pub reset_error_counts : LintState → LintState
reset_error_counts st = record st { error_count = 0; errors_by_category = [] }

-- `category.split('/')[0]`
abbrev head_or : Text → List Text → Text
head_or d [] = d
head_or d (f ∷ fs) = f

-- `d.setdefault(category, 0)`, and one more
abbrev pub one_more : Option ℕ → ℕ
one_more none = 1
one_more (some n) = n + 1

abbrev pub bump : Text → List (Text × ℕ) → List (Text × ℕ)
bump category counts = insert category (one_more (lookup category counts)) counts

abbrev pub counts_categories : Text → Bool
counts_categories counting = counting == codes "toplevel" || counting == codes "detailed"

-- The name under which an error of this category is counted.
abbrev pub counted_as : Text → Text → Text
counted_as counting category =
    if not (counting == codes "detailed") then head_or category (split b'/' category) else category

unfoldable pub increment_error_count : Text → LintState → LintState
unfolding split
increment_error_count category st =
    if counts_categories st.counting
    then record st {
      error_count = st.error_count + 1;
      errors_by_category = bump (counted_as st.counting category) st.errors_by_category;
    }
    else record st { error_count = st.error_count + 1 }

abbrev category_line : Text × ℕ → Text
category_line (category, n) =
    color (codes "Category '" ++ category ++ codes "' errors found: " ++ show n ++ codes "\n")
      (if n == 0 then okblue else fail)

-- `PrintErrorCounts`: what is written to stderr
unfoldable pub print_error_counts : LintState → List Text
unfolding show
print_error_counts st =
    map category_line st.errors_by_category
    ++ color (codes "Total errors found: " ++ show st.error_count ++ codes "\n")
        ((if st.error_count == 0 then okblue else fail) ++ bold)
      ∷ []
