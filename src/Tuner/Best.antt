-- ===== src/Tuner/Best.antt =====
-- mymalloc/opentuner_run.py, `run`: what the tuner remembers over a series of runs.
use dlmalloc.Prelude.{
  ℕ, ◌≡◌, refl, sym, ◌∙◌, ap, true, false, List, [], ◌∷◌, some, nat_eq, text_eq, arith, Bool-cases,
  inl, inr, ◌⊎◌, ℤ, int_eq, pos,
}
use mathlib.Core.Path.{subst}
use dlmalloc.Text.{Text}
use dlmalloc.Tuner.{Args, Tuner, initial, Outcome, Measured, make_command, bin_command, run}
use dlmalloc.Tuner.Output.{Value, int, Floats}
use dlmalloc.Tuner.Step.{Kept, Raised, Step, Step-run}

-- What the tuner relies on in Python 2's `>`: it is transitive, and no value is above itself.
pub record Ordered {F : Type 0} (py : Floats F) : Type 0 where
  pub greater_trans :
      (a b c : Value F) → py.greater a b ≡ true → py.greater b c ≡ true → py.greater a c ≡ true
  pub greater_irrefl : (a : Value F) → py.greater a a ≡ false

-- The runs of a tuner that returned: the configuration and what was measured.
abbrev pub Runs : Type 0 → Type 0
Runs F = List (List (Text × ℤ) × Measured F)

-- The states that a series of runs leads to from the initial one, the last run first.
pub data Reached {F : Type 0} (py : Floats F) (args : Args) : Runs F → Tuner F → Type 0 where
  start : Reached py args [] initial
  step :
      (runs : Runs F) (t next : Tuner F) (cfg : List (Text × ℤ))
      (call_program : Text → ℕ → Outcome F) (result : Measured F)
      → Reached py args runs t
      → run py args cfg call_program t ≡ some (next, result)
      → Reached py args ((cfg, result) ∷ runs) next

-- None of the runs has measured more than this.
abbrev pub NoneAbove : {F : Type 0} → Floats F → Value F → Runs F → Type 0
NoneAbove py best [] = Unit
NoneAbove py best ((cfg, result) ∷ runs) =
    (py.greater result.accuracy best ≡ false) × NoneAbove py best runs

-- The tuner remembers the accuracy and the commands of a run, or nothing yet.
abbrev pub Remembered : {F : Type 0} → Args → Tuner F → Runs F → Type 0
Remembered args t [] =
    (t.best_accuracy ≡ int (pos 0)) × (t.best_make_cmd ≡ []) × (t.best_bin_cmd ≡ [])
Remembered args t ((cfg, result) ∷ runs) =
    Remembered args t runs
    ⊎ (result.accuracy ≡ t.best_accuracy)
      × (t.best_make_cmd ≡ make_command args cfg)
      × (some t.best_bin_cmd ≡ bin_command args)

module _ {F : Type 0} (py : Floats F) (order : Ordered py) (args : Args) where
  not_above :
      (a b c : Value F) → py.greater c b ≡ true → py.greater a b ≡ false → py.greater a c ≡ false
  not_above a b c raised h = elim (Bool-cases (py.greater a c)) [
    | inl e ↦ let over = order.greater_trans a c b e raised in absurd (ground arith)
    | inr e ↦ e
  ]

  NoneAbove-raised :
      (runs : Runs F) (old new : Value F)
      → py.greater new old ≡ true
      → NoneAbove py old runs
      → NoneAbove py new runs
  NoneAbove-raised [] old new r h = tt
  NoneAbove-raised ((cfg, result) ∷ runs) old new r h =
      (not_above result.accuracy old new r h.0, NoneAbove-raised runs old new r h.1)

  Remembered-kept :
      (runs : Runs F) (t next : Tuner F)
      → next.best_accuracy ≡ t.best_accuracy
      → next.best_make_cmd ≡ t.best_make_cmd
      → next.best_bin_cmd ≡ t.best_bin_cmd
      → Remembered args t runs
      → Remembered args next runs
  Remembered-kept [] t next a m b h = ground arith
  Remembered-kept ((cfg, result) ∷ runs) t next a m b (inl h) =
      inl (Remembered-kept runs t next a m b h)
  Remembered-kept ((cfg, result) ∷ runs) t next a m b (inr (x, y, z)) =
      inr (x ∙ sym a, m ∙ y, ap some b ∙ z)

  -- What holds after some runs.
  record Best (runs : Runs F) (t : Tuner F) : Type 0 where
    pub not_negative : py.greater (int (pos 0)) t.best_accuracy ≡ false
    pub none_above : NoneAbove py t.best_accuracy runs
    pub remembered : Remembered args t runs

  start-Best : Best [] initial
  start-Best = record {
    not_negative = order.greater_irrefl (int (pos 0));
    none_above = tt;
    remembered = (refl, refl, refl);
  }

  Kept-Best :
      (runs : Runs F) (t next : Tuner F) (cfg : List (Text × ℤ)) (result : Measured F)
      → Kept py t next result
      → Best runs t
      → Best ((cfg, result) ∷ runs) next
  Kept-Best runs t next cfg result (a, m, b, low) best = record {
    not_negative = let n = best.not_negative in rw a n;
    none_above =
        subst (λ v. NoneAbove py v ((cfg, result) ∷ runs)) (sym a)
          (
            elim low [
              | inl z ↦ subst (λ v. py.greater v t.best_accuracy ≡ false) (sym z) best.not_negative
              | inr l ↦ l
            ],
            best.none_above,
          );
    remembered = inl (Remembered-kept runs t next a m b best.remembered);
  }

  Raised-Best :
      (runs : Runs F) (t next : Tuner F) (cfg : List (Text × ℤ)) (result : Measured F)
      → Raised py (make_command args cfg) (bin_command args) t next result
      → Best runs t
      → Best ((cfg, result) ∷ runs) next
  Raised-Best runs t next cfg result (up, a, m, b) best =
      let above = subst (λ v. py.greater v t.best_accuracy ≡ true) (sym a) up in
      record {
        not_negative =
            not_above (int (pos 0)) t.best_accuracy next.best_accuracy above best.not_negative;
        none_above = (
          subst (λ v. py.greater v next.best_accuracy ≡ false) a
              (order.greater_irrefl next.best_accuracy),
          NoneAbove-raised runs t.best_accuracy next.best_accuracy above best.none_above,
        );
        remembered = inr (sym a, m, b);
      }

  -- A run that returns keeps the invariant.
  Step-Best :
      (runs : Runs F) (t next : Tuner F) (cfg : List (Text × ℤ)) (result : Measured F)
      → Step py (make_command args cfg) (bin_command args) t (some (next, result))
      → Best runs t
      → Best ((cfg, result) ∷ runs) next
  Step-Best runs t next cfg result (inl kept) best = Kept-Best runs t next cfg result kept best
  Step-Best runs t next cfg result (inr raised) best =
      Raised-Best runs t next cfg result raised best

  Reached-Best : (runs : Runs F) (t : Tuner F) → Reached py args runs t → Best runs t
  Reached-Best _ _ start = start-Best
  Reached-Best _ _ (step runs t next cfg call_program result before e) =
      Step-Best runs t next cfg result
        (subst (Step py (make_command args cfg) (bin_command args) t) e
          (Step-run py args cfg call_program t))
        (Reached-Best runs t before)

  -- After any series of runs, if Python's `>` is transitive and irreflexive: no run has measured
  -- more than the best accuracy, and the best accuracy and the two commands that save_final_config
  -- prints are those of one run, or those that the tuner began with.
  pub reached-Best :
      (runs : Runs F) (t : Tuner F)
      → Reached py args runs t
      → NoneAbove py t.best_accuracy runs × Remembered args t runs
  reached-Best runs t r = let best = Reached-Best runs t r in (best.none_above, best.remembered)
