-- ===== src/LineChecks/Blank.antt =====
-- clint.py, `GetPreviousNonBlankLine`: it finds the last line before this one that is not blank.
use dlmalloc.Prelude.{
  ℕ, zero, suc, ◌<◌, ◌≡◌, ◌⊎◌, inl, inr, refl, true, false, List, [], arith, Bool-cases, get_or,
  pos, negsuc,
}
use dlmalloc.Text.{Text}
use dlmalloc.LineChecks.{is_blank_line, get_previous_non_blank_line}

below : (i n : ℕ) → i < suc n → (i < n) ⊎ (i ≡ n)
below i n l = ground arith

-- What GetPreviousNonBlankLine is to return for line `linenum`.
abbrev pub Previous : List Text → ℕ → Type 0
Previous elided linenum =
    ((get_previous_non_blank_line elided linenum ≡ ([], negsuc 0))
      × ((i : ℕ) → i < linenum → is_blank_line (get_or elided i []) ≡ true))
    ⊎ ((i : ℕ) × (i < linenum)
        × (get_previous_non_blank_line elided linenum ≡ (get_or elided i [], pos i))
        × (is_blank_line (get_or elided i []) ≡ false)
        × ((j : ℕ) → i < j → j < linenum → is_blank_line (get_or elided j []) ≡ true))

-- Before line `linenum`, if all lines are blank, GetPreviousNonBlankLine returns the empty text
-- and -1; else the last one that is not blank and its number.
pub get_previous_non_blank_line_lem : (elided : List Text) (linenum : ℕ) → Previous elided linenum
unfolding get_previous_non_blank_line
get_previous_non_blank_line_lem elided zero = inl (refl, λ i l. absurd (omega arith))
get_previous_non_blank_line_lem elided (suc linenum) =
    elim (Bool-cases (is_blank_line (get_or elided linenum []))) [
      | inr e ↦ inr (linenum, omega arith, ground arith, e, λ j l m. absurd (omega arith))
      | inl e ↦ elim (get_previous_non_blank_line_lem elided linenum) [
        | inl (r, all) ↦ inl (
          ground arith,
          λ i l. elim (below i linenum l) [ inl m ↦ all i m | inr same ↦ rw same e ],
        )
        | inr (i, l, r, solid, later) ↦ inr (
          i,
          omega arith,
          ground arith,
          solid,
          λ j l' m. elim (below j linenum m) [ inl m' ↦ later j l' m' | inr same ↦ rw same e ],
        )
      ]
    ]
