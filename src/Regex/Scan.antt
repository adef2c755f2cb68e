-- ===== src/Regex/Scan.antt =====
-- Running a pattern over a text of which a stretch is known only by the class of its characters.
use mathlib.Core.List.{reverse_aux}
use dlmalloc.Prelude.{
  ℕ, zero, suc, ◌≤◌, ◌≡◌, true, false, List, [], ◌∷◌, ◌++◌, none, some, arith, length, All, refl,
}
use dlmalloc.Text.{Text}
use dlmalloc.Regex.{
  Class, Regex, char, star, Cursor, Then, in_class, repeat, run, search_from, accept,
}

abbrev pub InClass : Class → Text → Type 0
InClass k [] = Unit
InClass k (x ∷ s) = (in_class k x ≡ true) × InClass k s

-- No character of the class comes next.
abbrev pub Stops : Class → Text → Type 0
Stops k [] = Unit
Stops k (x ∷ s) = in_class k x ≡ false

abbrev pub cursor : Text → Text → List (ℕ × Text) → Cursor
cursor past rest groups = record { past = past; rest = rest; groups = groups }

repeat-InClass :
    (k : Class) (s r past : Text) (groups : List (ℕ × Text)) (next : Then) (n : ℕ) {t : Cursor}
    → InClass k s
    → Stops k r
    → length (s ++ r) ≤ n
    → next (cursor (reverse_aux s past) r groups) ≡ some t
    → repeat n (run (char k)) (cursor past (s ++ r) groups) next ≡ some t
unfolding repeat run
repeat-InClass k [] r past groups next zero i h l e = e
repeat-InClass k [] [] past groups next (suc n) i h l e = e
repeat-InClass k [] (x ∷ r) past groups next (suc n) i h l e = ground arith
repeat-InClass k (x ∷ s) r past groups next zero i h l e = absurd (omega arith)
repeat-InClass k (x ∷ s) r past groups next (suc n) i h l e =
    let later = repeat-InClass k s r (x ∷ past) groups next n i.1 h (omega arith) e in ground arith

-- A greedy repetition reads all that it can, if what follows then succeeds.
pub run-star-InClass :
    (k : Class) (s r past : Text) (groups : List (ℕ × Text)) (next : Then) {t : Cursor}
    → InClass k s
    → Stops k r
    → next (cursor (reverse_aux s past) r groups) ≡ some t
    → run (star (char k)) (cursor past (s ++ r) groups) next ≡ some t
unfolding run
run-star-InClass k s r past groups next i h e =
    repeat-InClass k s r past groups next (length (s ++ r)) i h (omega arith) e

-- A search goes past the places where the pattern has no match.
pub search_from-skip :
    (p : Regex) (P : ℕ → Type 0)
    → ((x : ℕ) (past r : Text) → P x → run p (cursor past (x ∷ r) []) accept ≡ none)
    → (s past r : Text) → All P s
    → search_from p past (s ++ r) ≡ search_from p (reverse_aux s past) r
unfolding search_from
search_from-skip p P fails [] past r h = refl
search_from-skip p P fails (x ∷ s) past r h =
    rw (fails x past (s ++ r) h.0, search_from) (search_from-skip p P fails s (x ∷ past) r h.1)
