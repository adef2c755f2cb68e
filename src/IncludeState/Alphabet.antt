-- ===== src/IncludeState/Alphabet.antt =====
-- clint.py, `IsInAlphabeticalOrder` over a run of headers.
use dlmalloc.Prelude.{
  ℕ, ◌<◌, ◌⊎◌, Bool, true, false, List, [], ◌∷◌, ◌≡◌, ◌↔◌, refl, arith, ◌&&◌, Bool-cases, inl, inr,
}
use dlmalloc.Text.{Text}
use dlmalloc.Unicode.{Unicode}
use dlmalloc.IncludeState.{
  IncludeState, greater, canonicalize_alphabetical_order, is_in_alphabetical_order,
}

-- Whether all headers of a run are found to be in order, one call for each.
unfoldable pub all_alphabetical : Unicode → List Text → IncludeState → Bool
all_alphabetical u [] st = true
all_alphabetical u (h ∷ hs) st =
    let (next, ok) = is_in_alphabetical_order u h st in ok && all_alphabetical u hs next

-- The dictionary order: `a` comes before `b` or is `b`.
pub data Before : Text → Text → Type 0 where
  empty : (b : Text) → Before [] b
  smaller : (x y : ℕ) (a b : Text) → x < y → Before (x ∷ a) (y ∷ b)
  same : (x y : ℕ) (a b : Text) → x ≡ y → Before a b → Before (x ∷ a) (y ∷ b)

-- Canonical forms that do not decrease, from `last` on.
abbrev pub Ascending : Unicode → Text → List Text → Type 0
Ascending u last [] = Unit
Ascending u last (h ∷ hs) =
    Before last (canonicalize_alphabetical_order u h)
    × Ascending u (canonicalize_alphabetical_order u h) hs

compare_lem : (x y : ℕ) → (x < y) ⊎ ((x ≡ y) ⊎ (y < x))
compare_lem x y = grind arith

Before-cases : {x y : ℕ} {a b : Text} → Before (x ∷ a) (y ∷ b) → (x < y) ⊎ ((x ≡ y) × Before a b)
Before-cases (smaller x y a b h) = inl h
Before-cases (same x y a b e h) = inr (e, h)

greater-false_iff : (a b : Text) → (greater a b ≡ false) ↔ Before a b
unfolding greater
greater-false_iff [] b = (λ e. empty b, λ h. refl)
greater-false_iff (x ∷ a) [] = (λ e. absurd (ground arith), λ h. elim h [ ])
greater-false_iff (x ∷ a) (y ∷ b) =
    let ih = greater-false_iff a b in
    elim (compare_lem x y) [
      | inl l ↦ (λ e. smaller x y a b l, λ h. ground arith)
      | inr (inl e) ↦ (
        λ g. same x y a b e (ih.0 (ground arith)),
        λ h. elim (Before-cases h) [
          | inl l ↦ absurd (omega arith)
          | inr (e', later) ↦ let g = ih.1 later in ground arith
        ],
      )
      | inr (inr l) ↦ (
        λ g. absurd (ground arith),
        λ h. elim (Before-cases h) [
          | inl l' ↦ absurd (omega arith)
          | inr (e', later) ↦ absurd (omega arith)
        ],
      )
    ]

-- All headers of a run are found to be in alphabetical order exactly when their canonical forms
-- do not decrease in the dictionary order of code points, from the last header on.
pub all_alphabetical_iff :
    (u : Unicode) (hs : List Text) (st : IncludeState)
    → (all_alphabetical u hs st ≡ true) ↔ Ascending u st.last_header hs
unfolding all_alphabetical is_in_alphabetical_order
all_alphabetical_iff u [] st = (λ e. tt, λ h. refl)
all_alphabetical_iff u (h ∷ hs) st =
    let canonical = canonicalize_alphabetical_order u h in
    let before = greater-false_iff st.last_header canonical in
    let later = all_alphabetical_iff u hs (record st { last_header = canonical }) in
    elim (Bool-cases (greater st.last_header canonical)) [
      | inl g ↦ (λ e. absurd (ground arith), λ a. absurd (cc (before.1 a.0)))
      | inr g ↦
          (λ e. (before.0 g, later.0 (ground arith)), λ a. let l = later.1 a.1 in ground arith)
    ]
