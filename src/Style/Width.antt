-- ===== src/Style/Width.antt =====
-- clint.py: GetLineWidth, and the lines that CheckStyle finds too long.
use dlmalloc.Prelude.{ℕ, ◌≤◌, ◌≡◌, ◌↔◌, ◌⊎◌, refl, Bool, true, false, ◌||◌, [], ◌∷◌, length, arith}
use dlmalloc.Text.{Text, codes, starts_with}
use dlmalloc.Regex.{matches}
use dlmalloc.Style.{Widths, sum_widths, get_line_width, re_url, re_id_comment, check_length}

-- Every character takes one column.
abbrev pub IsNarrow : Widths → Text → Type 0
IsNarrow w [] = Unit
IsNarrow w (c ∷ s) = (w.is_wide c ≡ false) × (w.is_combining c ≡ false) × IsNarrow w s

sum_widths-IsNarrow : (w : Widths) (s : Text) → IsNarrow w s → sum_widths w s ≡ length s
unfolding sum_widths
sum_widths-IsNarrow w [] h = refl
sum_widths-IsNarrow w (c ∷ s) h = ground (arith, sum_widths-IsNarrow w s h.2)

-- Lines of any length: #include, the header guard, a comment that ends in a URL, an $Id$ comment.
abbrev pub is_exempt : Text → Bool → Bool
is_exempt line is_guard =
    starts_with line (codes "#include")
    || is_guard
    || matches re_url line
    || matches re_id_comment line

-- If all characters of the normal form of a line take one column, CheckStyle finds the line too
-- long exactly if there are more than 100 of them, and it is no #include, no line of the header
-- guard and no comment with a URL at its end or an $Id$.
pub check_length_iff :
    (w : Widths) (filename line : Text) (n : ℕ) (is_guard : Bool)
    → IsNarrow w (w.normalize line)
    → (check_length w filename line n is_guard ≡ [])
      ↔ ((is_exempt line is_guard ≡ true) ⊎ (length (w.normalize line) ≤ 100))
unfolding get_line_width check_length
check_length_iff w filename line n is_guard h =
    let e = sum_widths-IsNarrow w (w.normalize line) h in ground arith
