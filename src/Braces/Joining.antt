-- ===== src/Braces/Joining.antt =====
-- clint.py, `CheckBraces`: when the loop that joins lines ends.
use dlmalloc.Prelude.{
  ℕ, zero, suc, ◌+◌, ◌≤◌, ◌<◌, ◌≡◌, refl, sym, ◌∙◌, ◌⊎◌, inl, inr, true, false, ◌&&◌, List, [],
  ◌++◌, none, some, arith, Bool-cases, ◌==◌, nat_eq, pos, negsuc, ℤ, get_or,
}
use dlmalloc.Text.{Text, codes, count}
use dlmalloc.Regex.{matches}
use dlmalloc.LineChecks.{is_blank_line, get_previous_non_blank_line}
use dlmalloc.LineChecks.Blank.{get_previous_non_blank_line_lem}
use dlmalloc.Report.{Event}
use dlmalloc.Braces.{
  re_indented_block, previous_line, join_lines, unended, check_braces, check_else_braces,
}

-- The number of rounds that the loop can take before it is above all lines.
abbrev pub height : ℤ → ℕ
height (pos n) = n + 1
height (negsuc n) = 0

join-on :
    (fuel : ℕ) (elided : List Text) (at above : ℤ) (prevline line : Text)
    → previous_line elided at ≡ (prevline, above)
    → matches re_indented_block line ≡ true
    → count prevline (codes ";") ≡ 0
    → join_lines (suc fuel) elided at line ≡ join_lines fuel elided above (prevline ++ line)
unfolding join_lines
join-on fuel elided at above prevline line e m c = rw (e, m, c) refl

join-over :
    (fuel : ℕ) (elided : List Text) (at above : ℤ) (prevline line : Text)
    → previous_line elided at ≡ (prevline, above)
    → (matches re_indented_block line && count prevline (codes ";") == 0) ≡ false
    → join_lines (suc fuel) elided at line ≡ some line
unfolding join_lines
join-over fuel elided at above prevline line e c = rw (e, c) refl

-- Where no line stands above, the loop makes no more progress.
join_lines-top :
    (fuel : ℕ) (elided : List Text) (at : ℤ) (line : Text)
    → previous_line elided at ≡ ([], negsuc 0)
    → matches re_indented_block line ≡ true
    → join_lines fuel elided at line ≡ none
unfolding count
join_lines-top zero elided at line e m = unfold join_lines in refl
join_lines-top (suc fuel) elided at line e m =
    join-on fuel elided at (negsuc 0) [] line e m refl
    ∙ join_lines-top fuel elided (negsuc 0) line refl m

-- Either nothing that is not blank stands above, or the loop goes on at a lower height.
previous_line-cases :
    (elided : List Text) (at : ℤ)
    → (previous_line elided at ≡ ([], negsuc 0))
      ⊎ ((i : ℕ) × (prevline : Text) × (i + 1 < height at)
          × (previous_line elided at ≡ (prevline, pos i)))
previous_line-cases elided (negsuc n) = inl refl
previous_line-cases elided (pos n) = elim (get_previous_non_blank_line_lem elided n) [
  | inl (r, all) ↦ inl r
  | inr (i, l, r, solid, later) ↦ inr (i, get_or elided i [], omega arith, r)
]

settled :
    (fuel : ℕ) (elided : List Text) (at : ℤ) (line : Text)
    → height at < fuel
    → join_lines fuel elided at line ≡ none
    → (more : ℕ) → join_lines more elided at line ≡ none
settled fuel elided at line l h zero = unfold join_lines in refl
settled zero elided at line l h (suc more) = absurd (omega arith)
settled (suc fuel) elided at line l h (suc more) = elim (previous_line-cases elided at) [
  | inl e ↦ elim (Bool-cases (matches re_indented_block line)) [
    | inl m ↦ join_lines-top (suc more) elided at line e m
    | inr m ↦
        let over = join-over fuel elided at (negsuc 0) [] line e (rw m refl) in
        absurd (ground arith)
  ]
  | inr (i, prevline, lower, e) ↦
      elim (Bool-cases (matches re_indented_block line && count prevline (codes ";") == 0)) [
        | inl c ↦
            let m : matches re_indented_block line ≡ true = ground arith in
            let n : count prevline (codes ";") ≡ 0 = ground arith in
            join-on more elided at (pos i) prevline line e m n
            ∙ settled fuel elided (pos i) (prevline ++ line) (omega arith)
                (sym (join-on fuel elided at (pos i) prevline line e m n) ∙ h) more
        | inr c ↦
            let over = join-over fuel elided at (pos i) prevline line e c in absurd (ground arith)
      ]
]

-- CheckBraces joins lines in at most linenum + 2 rounds, or never ends: a loop that has not ended
-- by then does not end with any number of rounds.
pub join_lines-Settled :
    (fuel : ℕ) (elided : List Text) (linenum : ℕ) (line : Text)
    → linenum + 2 ≤ fuel
    → join_lines fuel elided (pos linenum) line ≡ none
    → (more : ℕ) → join_lines more elided (pos linenum) line ≡ none
join_lines-Settled fuel elided linenum line l h more =
    settled fuel elided (pos linenum) line (omega arith) h more

nothing-above :
    (elided : List Text) (linenum : ℕ)
    → ((i : ℕ) → i < linenum → is_blank_line (get_or elided i []) ≡ true)
    → get_previous_non_blank_line elided linenum ≡ ([], negsuc 0)
nothing-above elided linenum blank = elim (get_previous_non_blank_line_lem elided linenum) [
  | inl (r, all) ↦ r
  | inr (i, l, r, solid, later) ↦ let b = blank i l in absurd (ground arith)
]

-- If a line begins with spaces and a block that ends in a semicolon, all lines above it are
-- blank, and the checks of an else raise no IndexError, CheckBraces never ends: at the top its loop
-- puts the empty text in front of the line, again and again.
pub check_braces-never :
    (fuel : ℕ) (filename : Text) (elided : List Text) (linenum : ℕ) (else_events : List Event)
    → ((i : ℕ) → i < linenum → is_blank_line (get_or elided i []) ≡ true)
    → matches re_indented_block (get_or elided linenum []) ≡ true
    → check_else_braces filename elided linenum (get_or elided linenum []) ≡ some else_events
    → check_braces fuel filename elided linenum ≡ unended
unfolding check_braces
check_braces-never fuel filename elided linenum else_events blank m e =
    let line = get_or elided linenum [] in
    let j = join_lines-top fuel elided (pos linenum) line (nothing-above elided linenum blank) m in
    rw (e, j, check_braces) refl
