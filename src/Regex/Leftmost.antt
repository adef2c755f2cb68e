-- ===== src/Regex/Leftmost.antt =====
-- The matcher's `match` and `search`: where they find a match, and that they miss none.
use dlmalloc.Prelude.{
  ℕ, zero, suc, ◌≤◌, ◌<◌, ◌≡◌, sym, ◌↔◌, inl, inr, Option, none, some, [], ◌∷◌, arith, length,
  Option-cases, true,
}
use mathlib.Core.Path.{subst}
use dlmalloc.Text.{Text}
use dlmalloc.Regex.{Regex, Cursor, at_start, accept, run, matches, search_from, search_in, found}
use dlmalloc.Regex.Meaning.{Means}
use dlmalloc.Regex.Correct.{run-Agrees}

-- The cursor `i` characters further on.
abbrev pub place : Text → ℕ → Text → Cursor
place past zero rest = record { past = past; rest = rest; groups = [] }
place past (suc i) [] = record { past = past; rest = []; groups = [] }
place past (suc i) (c ∷ rest) = place (c ∷ past) i rest

abbrev pub NoMatch : Regex → Cursor → Type 0
NoMatch p s = ¬ ((t : Cursor) × Means p s t)

run-none : (p : Regex) (s : Cursor) → run p s accept ≡ none → NoMatch p s
run-none p s e (t, m) = (run-Agrees p).1 s t accept m (λ e'. cc) e

run-some : (p : Regex) (s : Cursor) {t : Cursor} → run p s accept ≡ some t → Means p s t
run-some p s {t} e = let (u, m, e') = (run-Agrees p).0 s accept t e in ground arith

-- A match that starts `i` characters on, with none that starts before it.
abbrev pub IsLeftmost : Regex → Text → Text → Cursor → Cursor → Type 0
IsLeftmost p past rest a b =
    (i : ℕ) × (i ≤ length rest)
    × (place past i rest ≡ a)
    × Means p a b
    × ((j : ℕ) → j < i → NoMatch p (place past j rest))

search_from-none :
    (p : Regex) (past rest : Text)
    → search_from p past rest ≡ none
    → (i : ℕ) → i ≤ length rest
    → NoMatch p (place past i rest)
unfolding search_from
search_from-none p past [] e zero l = run-none p _ (ground arith)
search_from-none p past [] e (suc i) l = absurd (omega arith)
search_from-none p past (c ∷ rest) e zero l = run-none p _ (ground arith)
search_from-none p past (c ∷ rest) e (suc i) l =
    search_from-none p (c ∷ past) rest (ground arith) i (omega arith)

-- The matcher's own result, as the two cursors that a search returns.
Means-pair :
    (p : Regex) (s t a b : Cursor)
    → run p s accept ≡ some t
    → ◌≡◌ {A = Option (Cursor × Cursor)} (some (s, t)) (some (a, b))
    → Means p a b
Means-pair p s t a b m e =
    let first : s ≡ a = ground arith in
    let second : t ≡ b = ground arith in
    subst (λ x. Means p x b) first (subst (λ y. Means p s y) second (run-some p s m))

not_before :
    (p : Regex) (past : Text) (c : ℕ) (rest : Text) (i : ℕ)
    → run p (place past 0 (c ∷ rest)) accept ≡ none
    → ((j : ℕ) → j < i → NoMatch p (place (c ∷ past) j rest))
    → (j : ℕ) → j < suc i
    → NoMatch p (place past j (c ∷ rest))
not_before p past c rest i n before zero h = run-none p _ n
not_before p past c rest i n before (suc j) h = before j (omega arith)

search_from-IsLeftmost :
    (p : Regex) (past rest : Text) (a b : Cursor)
    → search_from p past rest ≡ some (a, b)
    → IsLeftmost p past rest a b
unfolding search_from
search_from-IsLeftmost p past [] a b e = elim (Option-cases (run p (place past 0 []) accept)) [
  | inl n ↦ absurd (ground arith)
  | inr (t, m) ↦ (
    0,
    omega arith,
    ground arith,
    Means-pair p (place past 0 []) t a b m (ground arith),
    λ j h. absurd (omega arith),
  )
]
search_from-IsLeftmost p past (c ∷ rest) a b e =
    elim (Option-cases (run p (place past 0 (c ∷ rest)) accept)) [
      | inl n ↦
          let (i, l, h, m, none_before) =
            search_from-IsLeftmost p (c ∷ past) rest a b (ground arith) in
          (suc i, omega arith, h, m, not_before p past c rest i n none_before)
      | inr (t, m) ↦ (
        0,
        omega arith,
        ground arith,
        Means-pair p (place past 0 (c ∷ rest)) t a b m (ground arith),
        λ j h. absurd (omega arith),
      )
    ]

-- What `search` returns is a match, between cursors on `s`, and no match starts before it.
pub search_in-IsLeftmost :
    (p : Regex) (s : Text) {a b : Cursor} → search_in p s ≡ some (a, b) → IsLeftmost p [] s a b
unfolding search_in
search_in-IsLeftmost p s {a} {b} e = search_from-IsLeftmost p [] s a b e

-- `search` returns None only if there is no match from any place of `s`, its end included.
pub search_in-none :
    (p : Regex) (s : Text)
    → search_in p s ≡ none
    → (i : ℕ) → i ≤ length s
    → NoMatch p (place [] i s)
unfolding search_in
search_in-none p s = search_from-none p [] s

-- `match` succeeds exactly when the pattern has a match from the start of `s`.
pub matches_iff :
    (p : Regex) (s : Text) → (matches p s ≡ true) ↔ ((t : Cursor) × Means p (at_start s) t)
unfolding matches
matches_iff p s = elim (Option-cases (run p (at_start s) accept)) [
  | inl e ↦ (λ h. absurd (ground arith), λ m. absurd (run-none p (at_start s) e m))
  | inr (t, e) ↦ (λ h. (t, run-some p (at_start s) e), λ m. ground arith)
]

-- `search` succeeds exactly when the pattern has a match from some place of `s`.
pub found_iff :
    (p : Regex) (s : Text)
    → (found p s ≡ true) ↔ ((i : ℕ) × (i ≤ length s) × ((t : Cursor) × Means p (place [] i s) t))
unfolding found
found_iff p s = elim (Option-cases (search_in p s)) [
  | inl e ↦ (λ h. absurd (ground arith), λ m. absurd (search_in-none p s e m.0 m.1 m.2))
  | inr ((a, b), e) ↦
      let (i, l, h, m, before) = search_in-IsLeftmost p s e in
      (λ _. (i, l, (b, subst (λ x. Means p x b) (sym h) m)), λ _. ground arith)
]
