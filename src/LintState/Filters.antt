-- ===== src/LintState/Filters.antt =====
-- clint.py, `SetFilters`: what is stored, and when ValueError is raised.
use dlmalloc.Prelude.{
  true, List, [], ◌∷◌, ◌++◌, none, ◌≡◌, refl, ◌↔◌, ◌==◌, text_eq, arith, if◌then◌else◌,
  append_assoc, append-nil, sym, Bool-cases, inl, inr, ◌∙◌,
}
use dlmalloc.Text.{Text, strip, split}
use dlmalloc.LintState.{
  LintState, default_filters, is_signed, add_filters, unsigned_filter, set_filters,
}

-- Every filter begins with + or -.
abbrev pub AllSigned : List Text → Type 0
AllSigned [] = Unit
AllSigned (filt ∷ filters) = (is_signed filt ≡ true) × AllSigned filters

-- The filters of a list of fields: stripped, and those that are then not empty.
abbrev pub clean_filters : List Text → List Text
clean_filters [] = []
clean_filters (filt ∷ more) =
    if strip filt == [] then clean_filters more else strip filt ∷ clean_filters more

add_filters-append :
    (fields filters : List Text) → add_filters filters fields ≡ filters ++ clean_filters fields
unfolding add_filters
add_filters-append [] filters = sym (append-nil filters)
add_filters-append (filt ∷ more) filters = elim (Bool-cases (strip filt == [])) [
  | inl e ↦ rw e (add_filters-append more filters)
  | inr e ↦ rw e (
      add_filters-append more (filters ++ strip filt ∷ [])
      ∙ append_assoc filters (strip filt ∷ []) (clean_filters more))
]

pub unsigned_filter-none_iff :
    (filters : List Text) → (unsigned_filter filters ≡ none) ↔ AllSigned filters
unfolding unsigned_filter
unsigned_filter-none_iff [] = (λ e. tt, λ h. refl)
unsigned_filter-none_iff (filt ∷ filters) = ground (arith, unsigned_filter-none_iff filters)

-- SetFilters stores the default filters and behind them the stripped fields of its argument that
-- are not empty, whether or not it raises; it changes nothing else; and it raises no ValueError
-- exactly when all filters that are then stored begin with + or -.
pub set_filters_lem :
    (text : Text) (st : LintState)
    → let filters = default_filters ++ clean_filters (split b',' text) in
      ((set_filters text st).0 ≡ record st { filters = filters })
      × (((set_filters text st).1 ≡ none) ↔ AllSigned filters)
unfolding set_filters
set_filters_lem text st =
    let e = add_filters-append (split b',' text) default_filters in
    (rw e, rw e (unsigned_filter-none_iff (default_filters ++ clean_filters (split b',' text))))
