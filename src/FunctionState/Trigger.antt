-- ===== src/FunctionState/Trigger.antt =====
-- clint.py, `_FunctionState.Check`: when a long function is reported, and with what confidence.
use Prim.Native.Nat.{min}
use native.Mathlib.Nat.{pow-suc, le-div_iff_mul-le, div-eq_of_lt, le_refl}
use dlmalloc.Prelude.{
  ℕ, zero, suc, ◌*◌, ◌/◌, ◌^◌, ◌≤◌, ◌<◌, [], ◌∷◌, none, some, pos, negsuc, ◌≡◌, ◌⊎◌, inl, inr,
  arith, ltb, if◌then◌else◌, Bool-cases, ltb→lt,
}
use dlmalloc.Text.{Text, codes}
use dlmalloc.Report.{error}
use dlmalloc.FunctionState.{
  FunctionState, base_trigger, log2, log2_from, check, long_function_message,
}

log2_from-le : (fuel n : ℕ) → log2_from fuel n ≤ fuel
unfolding log2_from
log2_from-le zero n = omega arith
log2_from-le (suc fuel) n = ground (arith, log2_from-le fuel (n / 2))

pow-pos : (k : ℕ) → 1 ≤ 2 ^ k
pow-pos zero = omega arith
pow-pos (suc k) = omega (arith, pow-pos k, pow-suc 2 k)

-- The logarithm is at least `k` from 2 ^ k on.
le-log2_from : (k fuel n : ℕ) → n ≤ fuel → 2 ^ k ≤ n → k ≤ log2_from fuel n
unfolding log2_from
le-log2_from zero fuel n f h = omega arith
le-log2_from (suc k) zero n f h = let p = pow-pos k in absurd (omega (arith, pow-suc 2 k))
le-log2_from (suc k) (suc fuel) n f h =
    let p = pow-pos k in
    let half : 2 ^ k ≤ n / 2 = omega (arith, pow-suc 2 k) in
    let more = le-log2_from k fuel (n / 2) (omega (arith, pow-suc 2 k)) half in
    ground (arith, pow-suc 2 k)

base_trigger_pos : (function : Text) → 250 ≤ base_trigger function
unfolding base_trigger
base_trigger_pos function = ground arith

-- At a verbosity that is not negative, a report of length has a quotient of at least 2 ^ level.
quotient_bound :
    (lines base level : ℕ) → 0 < base → base * 2 ^ level < lines → 2 ^ level ≤ lines / base
quotient_bound lines base level p h = (le-div_iff_mul-le p).1 (omega arith)

-- At a verbosity that is not negative Check raises nothing. It reports exactly the functions with
-- more than base * 2 ^ level lines, with a confidence of at most 5 that is at least the level, or
-- 5 if the level is greater: so the filter on confidence never hides the report up to level 5.
pub check-level :
    (level : ℕ) (filename : Text) (linenum : ℕ) (st : FunctionState)
    → let base = base_trigger st.current_function in
      ((st.lines_in_function ≤ base * 2 ^ level)
        × (check (pos level) filename linenum st ≡ some []))
      ⊎ ((base * 2 ^ level < st.lines_in_function)
          × ((confidence : ℕ) × (check (pos level) filename linenum st
                ≡ some (
                    error filename linenum (codes "readability/fn_size") confidence (
                      long_function_message st.current_function st.lines_in_function
                        (base * 2 ^ level))
                    ∷ []))
              × (confidence ≤ 5)
              × (min 5 level ≤ confidence)))
unfolding check log2
check-level level filename linenum st =
    let base = base_trigger st.current_function in
    let quotient = st.lines_in_function / base in
    elim (Bool-cases (ltb (base * 2 ^ level) st.lines_in_function)) [
      | inr short ↦ inl (ground arith, ground arith)
      | inl long ↦
          let q =
            quotient_bound st.lines_in_function base level
              (omega (arith, base_trigger_pos st.current_function))
              (ltb→lt (base * 2 ^ level) st.lines_in_function long) in
          let p = pow-pos level in
          let deep : level ≤ log2 quotient =
            le-log2_from level quotient quotient (le_refl quotient) q in
          inr (
            ltb→lt (base * 2 ^ level) st.lines_in_function long,
            (
              if ltb 5 (log2 quotient) then 5 else log2 quotient,
              ground arith,
              ground arith,
              ground arith,
            ),
          )
    ]

-- At a negative verbosity -(n + 1), Check raises ValueError for every function whose body has
-- fewer lines than the base but more than base / 2 ^ (n + 1): the quotient is then 0, which has
-- no logarithm.
pub check-negative :
    (n : ℕ) (filename : Text) (linenum : ℕ) (st : FunctionState)
    → base_trigger st.current_function < st.lines_in_function * 2 ^ suc n
    → st.lines_in_function < base_trigger st.current_function
    → check (negsuc n) filename linenum st ≡ none
unfolding check
check-negative n filename linenum st long short = ground (arith, div-eq_of_lt short)
