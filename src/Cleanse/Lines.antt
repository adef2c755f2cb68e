-- ===== src/Cleanse/Lines.antt =====
-- Lists of lines: the first line that passes a test, and what clearing a range leaves.
use dlmalloc.Prelude.{
  ℕ, suc, ◌+◌, ◌-◌, Bool, true, false, List, [], ◌∷◌, ◌++◌, ◌≡◌, refl, ap, inl, inr, arith, All,
  length, length-append, drop, take-append, drop-append, replicate, append_assoc, Bool-cases,
}
use dlmalloc.Text.{Text}
use dlmalloc.Cleanse.{first_line, dummy, remove_multi_line_comments_from_range}

abbrev pub Fails : (Text → Bool) → List Text → Type 0
Fails test = All (λ line. test line ≡ false)

-- Where `first_line` stops: at `end`, since every line fails the test, or at the first that passes.
pub data FirstLine (test : Text → Bool) (end : ℕ) (lines : List Text) (ix r : ℕ) : Type 0 where
  nowhere : Fails test lines → r ≡ end → FirstLine test end lines ix r
  here :
      (a : List Text) (line : Text) (b : List Text)
      → lines ≡ a ++ line ∷ b
      → Fails test a
      → test line ≡ true
      → r ≡ ix + length a
      → FirstLine test end lines ix r

FirstLine-cons :
    {test : Text → Bool} {end ix r : ℕ} {lines : List Text} (line : Text)
    → test line ≡ false
    → FirstLine test end lines (suc ix) r
    → FirstLine test end (line ∷ lines) ix r
FirstLine-cons line e (nowhere f h) = nowhere (e, f) h
FirstLine-cons line e (here a l b s f t h) =
    here (line ∷ a) l b (ap (◌∷◌ line) s) (e, f) t (omega arith)

pub first_line-FirstLine :
    (test : Text → Bool) (end : ℕ) (lines : List Text) (ix : ℕ)
    → FirstLine test end lines ix (first_line test end lines ix)
unfolding first_line
first_line-FirstLine test end [] ix = nowhere tt refl
first_line-FirstLine test end (line ∷ lines) ix = elim (Bool-cases (test line)) [
  | inl e ↦ rw e (here [] line lines refl tt e (omega arith))
  | inr e ↦ rw e (FirstLine-cons line e (first_line-FirstLine test end lines (suc ix)))
]

drop-length : (n : ℕ) (xs ys : List Text) → n ≡ length xs → drop n (xs ++ ys) ≡ ys
drop-length n xs ys e = rw e (drop-append xs ys)

-- Clearing the middle of three stretches.
pub clear_middle :
    (a b c : List Text)
    → remove_multi_line_comments_from_range (a ++ (b ++ c)) (length a) (length a + length b)
      ≡ a ++ (replicate (length b) dummy ++ c)
unfolding remove_multi_line_comments_from_range
clear_middle a b c =
    let middle : length a + length b - length a ≡ length b = omega arith in
    let last : drop (length a + length b) (a ++ (b ++ c)) ≡ c =
      rw (← append_assoc a b c)
        (drop-length (length a + length b) (a ++ b) c (omega (arith, length-append a b))) in
    rw (take-append a (b ++ c), middle, last)
