-- ===== src/Nolint/Parsing.antt =====
-- clint.py: a NOLINT comment suppresses what it names, on its line and nowhere else.
use dlmalloc.Prelude.{
  true, ◌&&◌, ◌||◌, [], ◌∷◌, Option, none, some, ◌≡◌, ℤ, ◌==◌, text_eq, option_eq, int_eq, arith,
  if◌then◌else◌, contains, option_beq_iff, int_beq_iff, Option-cases, inl, inr,
}
use dlmalloc.Prelude.Dict.{lookup, lookup-insert}
use dlmalloc.Text.{Text}
use dlmalloc.Nolint.{Suppressions, add_suppression, lines_of, is_error_suppressed_by_nolint}

contains-lines_of-add :
    (key category : Option Text) (linenum l : ℤ) (table : Suppressions)
    → contains (lines_of key (add_suppression category linenum table)) l
      ≡ (if key == category && l == linenum then true else contains (lines_of key table) l)
unfolding add_suppression
contains-lines_of-add key category linenum l table = elim (Option-cases (lookup category table)) [
  | inl e ↦ ground (
    arith,
    lookup-insert key category (linenum ∷ []) table,
    option_beq_iff key category,
    int_beq_iff l linenum,
  )
  | inr (lines, e) ↦ ground (
    arith,
    lookup-insert key category (linenum ∷ lines) table,
    option_beq_iff key category,
    int_beq_iff l linenum,
  )
]

-- After a suppression is recorded, an error is suppressed if it was before, or if it stands on
-- the recorded line and the recorded category is its own or is None; else it is not.
pub suppressed-add :
    (category : Option Text) (linenum l : ℤ) (c : Text) (table : Suppressions)
    → is_error_suppressed_by_nolint c l (add_suppression category linenum table) ≡ (
        is_error_suppressed_by_nolint c l table
        || l == linenum && (category == some c || category == none))
unfolding is_error_suppressed_by_nolint
suppressed-add category linenum l c table = ground (
  arith,
  contains-lines_of-add (some c) category linenum l table,
  contains-lines_of-add none category linenum l table,
  option_beq_iff (some c) category,
  option_beq_iff category (some c),
)
