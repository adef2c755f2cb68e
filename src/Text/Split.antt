-- ===== src/Text/Split.antt =====
-- `split` at one character, where the text has it and where it has not.
use mathlib.Core.List.{append-nil}
use dlmalloc.Prelude.{
  ℕ, ◌≡◌, ◌≢◌, refl, sym, ◌∙◌, ap, [], ◌∷◌, ◌++◌, ◌==◌, nat_eq, nat_beq_iff, All, arith, true,
  false,
}
use dlmalloc.Text.{Text, split, split_parts}

split_parts-append :
    (c : ℕ) (f s : Text)
    → All (λ x. x ≢ c) f
    → split_parts c (f ++ s) ≡ (f ++ (split_parts c s).0, (split_parts c s).1)
unfolding split_parts
split_parts-append c [] s h = refl
split_parts-append c (x ∷ f) s h =
    let e : (x == c) ≡ false = ground (arith, nat_beq_iff x c) in
    rw (split_parts, split_parts-append c f s h.1, e) refl

split_parts-here : (c : ℕ) (s : Text) → split_parts c (c ∷ s) ≡ ([], split c s)
unfolding split split_parts
split_parts-here c s =
    let e : (c == c) ≡ true = (nat_beq_iff c c).1 refl in rw (split_parts, e) refl

pub split-cons : (c : ℕ) (f s : Text) → All (λ x. x ≢ c) f → split c (f ++ c ∷ s) ≡ f ∷ split c s
unfolding split
split-cons c f s h =
    rw (split, split_parts-append c f (c ∷ s) h, split_parts-here c s)
      (ap (λ l. l ∷ split c s) (append-nil f))

pub split-last : (c : ℕ) (f : Text) → All (λ x. x ≢ c) f → split c f ≡ f ∷ []
unfolding split split_parts
split-last c f h =
    ap (split c) (sym (append-nil f))
    ∙ ap (λ p. p.0 ∷ p.1) (split_parts-append c f [] h)
    ∙ ap (λ l. l ∷ []) (append-nil f)
