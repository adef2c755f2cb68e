-- ===== src/Driver/Classes.antt =====
-- clint.py, `ProcessFileData`: the stack of classes over the lines of a file.
use dlmalloc.Prelude.{
  ℕ, zero, suc, ◌+◌, ◌≡◌, sym, inl, inr, List, [], some, ℤ, arith, Option-cases, get_or,
}
use mathlib.Core.Path.{subst}
use dlmalloc.Text.{Text}
use dlmalloc.Report.{Event}
use dlmalloc.Cleanse.{CleansedLines}
use dlmalloc.Classes.Constructs.{check_for_non_standard_constructs}
use dlmalloc.Classes.Stack.{StackOk, track_classes-Ok}
use dlmalloc.Driver.Lines.{Machine, LineState, fresh, process_line, process_lines}

-- The stack behind a line, if its checks return.
process_line-stack :
    (m : Machine) (fuel : ℕ) (verbose : ℤ) (filename ext : Text) (clean : CleansedLines) (n : ℕ)
    (st next : LineState) (events : List Event)
    → process_line m fuel verbose filename ext clean n st ≡ some (next, events)
    → next.class_state
      ≡ (check_for_non_standard_constructs filename clean.lines clean.elided n st.class_state).0
unfolding process_line
process_line-stack m fuel verbose filename ext clean n st next events h = ground arith

process_line-Ok :
    (m : Machine) (fuel : ℕ) (verbose : ℤ) (filename ext : Text) (clean : CleansedLines) (n : ℕ)
    (st next : LineState) (events : List Event)
    → StackOk n st.class_state
    → process_line m fuel verbose filename ext clean n st ≡ some (next, events)
    → StackOk (suc n) next.class_state
unfolding check_for_non_standard_constructs
process_line-Ok m fuel verbose filename ext clean n st next events ok h =
    subst (StackOk (suc n))
      (sym (process_line-stack m fuel verbose filename ext clean n st next events h))
      (track_classes-Ok filename clean.lines n (get_or clean.elided n []) st.class_state ok)

-- A loop that returns has returned from its first line and from the rest.
process_lines-next :
    (m : Machine) (fuel : ℕ) (verbose : ℤ) (filename ext : Text) (clean : CleansedLines)
    (n count : ℕ) (st last : LineState) (events : List Event)
    → process_lines m fuel verbose filename ext clean n (suc count) st ≡ some (last, events)
    → (next : LineState) × (first more : List Event) × (process_line m fuel verbose filename ext
          clean n st
        ≡ some (next, first))
      × (process_lines m fuel verbose filename ext clean (n + 1) count next ≡ some (last, more))
unfolding process_lines
process_lines-next m fuel verbose filename ext clean n count st last events h =
    elim (Option-cases (process_line m fuel verbose filename ext clean n st)) [
      | inl e ↦ absurd (ground arith)
      | inr (r, e) ↦
          elim (Option-cases (process_lines m fuel verbose filename ext clean (n + 1) count r.0)) [
            | inl f ↦ absurd (ground arith)
            | inr (q, f) ↦ (r.0, r.1, q.1, e, ground arith)
          ]
    ]

process_lines-from :
    (m : Machine) (fuel : ℕ) (verbose : ℤ) (filename ext : Text) (clean : CleansedLines)
    (n count : ℕ) (st last : LineState) (events : List Event)
    → StackOk n st.class_state
    → process_lines m fuel verbose filename ext clean n count st ≡ some (last, events)
    → StackOk (n + count) last.class_state
process_lines-from m fuel verbose filename ext clean n zero st last events ok h =
    let same : st ≡ last = unfold process_lines in ground arith in
    subst (λ k. StackOk k last.class_state) (omega arith)
      (subst (λ s. StackOk n s.class_state) same ok)
process_lines-from m fuel verbose filename ext clean n (suc count) st last events ok h =
    let (next, first, more, e, f) =
      process_lines-next m fuel verbose filename ext clean n count st last events h in
    subst (λ k. StackOk k last.class_state) (omega arith)
      (process_lines-from m fuel verbose filename ext clean (n + 1) count next last more
        (subst (λ k. StackOk k next.class_state) (omega arith)
          (process_line-Ok m fuel verbose filename ext clean n st next first ok e))
        f)

-- When the checks of the first `count` lines of a file return, the stack of classes that
-- CheckFinished and the later lines get is in order: its classes were declared on those lines,
-- each outside of the ones above it, every virtual method stands behind the declaration of its
-- class, and a class has a depth exactly when its opening brace was seen.
pub process_lines-Ok :
    (m : Machine) (fuel : ℕ) (verbose : ℤ) (filename ext : Text) (clean : CleansedLines) (count : ℕ)
    (last : LineState) (events : List Event)
    → process_lines m fuel verbose filename ext clean 0 count fresh ≡ some (last, events)
    → StackOk count last.class_state
process_lines-Ok m fuel verbose filename ext clean count last events h =
    subst (λ k. StackOk k last.class_state) (omega arith)
      (process_lines-from m fuel verbose filename ext clean 0 count fresh last events tt h)
