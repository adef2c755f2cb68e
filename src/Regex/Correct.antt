-- ===== src/Regex/Correct.antt =====
-- The matcher finds a match exactly when the pattern has one from the cursor on which what
-- follows succeeds.
use dlmalloc.Prelude.{
  ℕ, zero, suc, ◌≤◌, ◌≡◌, refl, ◌≢◌, inl, inr, Option, none, some, arith, length, Bool-cases,
  Option-cases, ltb→lt,
}
use dlmalloc.Regex.{
  Regex, empty, char, ◌⨾◌, ◌⊕◌, star, lazy_star, group, line_start, line_end, word_edge, if_ahead,
  unless_ahead, Cursor, Then, read_char, close_group, moved, onward, repeat, repeat_lazy, run,
  accept,
}
use dlmalloc.Regex.Meaning.{Rounds, done, round, Means}

abbrev pub Body : Type 0
Body = Cursor → Then → Option Cursor

abbrev pub Sound : (Cursor → Cursor → Type 0) → Body → Type 0
Sound R f =
    (s : Cursor) (k : Then) (t : Cursor) → f s k ≡ some t → (u : Cursor) × R s u × (k u ≡ some t)

abbrev pub Complete : (Cursor → Cursor → Type 0) → Body → Type 0
Complete R f = (s u : Cursor) (k : Then) → R s u → k u ≢ none → f s k ≢ none

module _ (R : Cursor → Cursor → Type 0) (f : Body) where
  extend :
      (again k : Then) (s t u : Cursor)
      → ((u : Cursor) → again u ≡ some t → (v : Cursor) × Rounds R u v × (k v ≡ some t))
      → R s u
      → onward s again u ≡ some t
      → (v : Cursor) × Rounds R s v × (k v ≡ some t)
  extend again k s t u ih r e = elim (Bool-cases (moved s u)) [
    | inl m ↦ let (v, rounds, h) = ih u (rw (m, onward) at e) in (v, round r m rounds, h)
    | inr m ↦ cc (rw (m, onward) at e)
  ]

  repeat-Sound : Sound R f → (n : ℕ) → Sound (Rounds R) (repeat n f)
  unfolding repeat
  repeat-Sound sound zero s k t h = (s, done refl, h)
  repeat-Sound sound (suc n) s k t h = elim (Option-cases (f s (onward s (λ u. repeat n f u k)))) [
    | inl e ↦ (s, done refl, rw (e, repeat) at h)
    | inr (v, e) ↦
        let (u, r, o) = sound s (onward s (λ u. repeat n f u k)) t (ground arith) in
        extend (λ u. repeat n f u k) k s t u (λ u. repeat-Sound sound n u k t) r o
  ]

  repeat_lazy-Sound : Sound R f → (n : ℕ) → Sound (Rounds R) (repeat_lazy n f)
  unfolding repeat_lazy
  repeat_lazy-Sound sound zero s k t h = (s, done refl, h)
  repeat_lazy-Sound sound (suc n) s k t h = elim (Option-cases (k s)) [
    | inr (v, e) ↦ (s, done refl, ground arith)
    | inl e ↦
        let (u, r, o) = sound s (onward s (λ u. repeat_lazy n f u k)) t (ground arith) in
        extend (λ u. repeat_lazy n f u k) k s t u (λ u. repeat_lazy-Sound sound n u k t) r o
  ]

  repeat-Complete :
      Complete R f
      → (n : ℕ) {s u : Cursor} (k : Then) → Rounds R s u
      → length s.rest ≤ n
      → k u ≢ none
      → repeat n f s k ≢ none
  unfolding repeat
  repeat-Complete complete zero k (done e) l h = ground arith
  repeat-Complete complete zero k (round {s} {u} r m rounds) l h =
      absurd (omega (arith, ltb→lt (length u.rest) (length s.rest) m))
  repeat-Complete complete (suc n) k (done e) l h = ground arith
  repeat-Complete complete (suc n) k (round {s} {u} r m rounds) l h =
      let later =
        repeat-Complete complete n k rounds
          (omega (arith, ltb→lt (length u.rest) (length s.rest) m)) h in
      let step = complete s u (onward s (λ t. repeat n f t k)) r (rw (m, onward) later) in
      ground arith

  repeat_lazy-Complete :
      Complete R f
      → (n : ℕ) {s u : Cursor} (k : Then) → Rounds R s u
      → length s.rest ≤ n
      → k u ≢ none
      → repeat_lazy n f s k ≢ none
  unfolding repeat_lazy
  repeat_lazy-Complete complete zero k (done e) l h = ground arith
  repeat_lazy-Complete complete zero k (round {s} {u} r m rounds) l h =
      absurd (omega (arith, ltb→lt (length u.rest) (length s.rest) m))
  repeat_lazy-Complete complete (suc n) k (done e) l h = ground arith
  repeat_lazy-Complete complete (suc n) k (round {s} {u} r m rounds) l h =
      let later =
        repeat_lazy-Complete complete n k rounds
          (omega (arith, ltb→lt (length u.rest) (length s.rest) m)) h in
      let step = complete s u (onward s (λ t. repeat_lazy n f t k)) r (rw (m, onward) later) in
      ground arith

abbrev pub Agrees : Regex → Type 0
Agrees p = Sound (Means p) (run p) × Complete (Means p) (run p)

pub run-Agrees : (p : Regex) → Agrees p
unfolding run
run-Agrees empty = (λ s k t h. (s, refl, h), λ s u k e h. ground arith)
run-Agrees (char c) = (
  λ s k t h. elim (Option-cases (read_char c s)) [
    | inl e ↦ cc (rw (e, run) at h)
    | inr (u, e) ↦ (u, e, ground arith)
  ],
  λ s u k m h. ground arith,
)
run-Agrees (p ⨾ q) = (
  λ s k t h.
      let (u, m, e) = (run-Agrees p).0 s (λ u. run q u k) t h in
      let (v, m', e') = (run-Agrees q).0 u k t e in (v, (u, m, m'), e'),
  λ s u k m h. (run-Agrees p).1 s m.0 (λ v. run q v k) m.1 ((run-Agrees q).1 m.0 u k m.2 h),
)
run-Agrees (p ⊕ q) = (
  λ s k t h. elim (Option-cases (run p s k)) [
    | inl e ↦ let (u, m, e') = (run-Agrees q).0 s k t (ground arith) in (u, inr m, e')
    | inr (v, e) ↦ let (u, m, e') = (run-Agrees p).0 s k t (ground arith) in (u, inl m, e')
  ],
  λ s u k m h. elim m [
    | inl m' ↦ let step = (run-Agrees p).1 s u k m' h in ground arith
    | inr m' ↦ let step = (run-Agrees q).1 s u k m' h in ground arith
  ],
)
run-Agrees (star p) = (
  λ s k t h. repeat-Sound (Means p) (run p) (run-Agrees p).0 (length s.rest) s k t h,
  λ s u k m h.
      repeat-Complete (Means p) (run p) (run-Agrees p).1 (length s.rest) k m (omega arith) h,
)
run-Agrees (lazy_star p) = (
  λ s k t h. repeat_lazy-Sound (Means p) (run p) (run-Agrees p).0 (length s.rest) s k t h,
  λ s u k m h.
      repeat_lazy-Complete (Means p) (run p) (run-Agrees p).1 (length s.rest) k m (omega arith) h,
)
run-Agrees (group n p) = (
  λ s k t h.
      let (u, m, e) = (run-Agrees p).0 s (λ v. k (close_group n s v)) t h in
      (close_group n s u, (u, m, refl), e),
  λ s u k m h. (run-Agrees p).1 s m.0 (λ v. k (close_group n s v)) m.1 (rw m.2 h),
)
run-Agrees line_start = (λ s k t h. (s, ground arith, ground arith), λ s u k m h. ground arith)
run-Agrees line_end = (λ s k t h. (s, ground arith, ground arith), λ s u k m h. ground arith)
run-Agrees word_edge = (λ s k t h. (s, ground arith, ground arith), λ s u k m h. ground arith)
run-Agrees (if_ahead p) = (
  λ s k t h. elim (Option-cases (run p s accept)) [
    | inl e ↦ absurd (ground arith)
    | inr (v, e) ↦
        let (u, m, e') = (run-Agrees p).0 s accept v e in (s, ((u, m), refl), ground arith)
  ],
  λ s u k m h. let step = (run-Agrees p).1 s m.0.0 accept m.0.1 (λ e. cc) in ground arith,
)
run-Agrees (unless_ahead p) = (
  λ s k t h. elim (Option-cases (run p s accept)) [
    | inl e ↦ (s, (λ m. (run-Agrees p).1 s m.0 accept m.1 (λ e'. cc) e, refl), ground arith)
    | inr (v, e) ↦ absurd (ground arith)
  ],
  λ s u k m h. elim (Option-cases (run p s accept)) [
    | inl e ↦ ground arith
    | inr (v, e) ↦ let (w, m', e') = (run-Agrees p).0 s accept v e in absurd (m.0 (w, m'))
  ],
)
