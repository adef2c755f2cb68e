-- ===== src/Tuner/Step.antt =====
-- mymalloc/opentuner_run.py, `run`: what one run does, on all its branches.
use dlmalloc.Prelude.{
  ℕ, ◌≡◌, ◌≢◌, refl, Bool, true, false, not, ◌||◌, List, Option, none, some, ◌==◌, nat_eq, text_eq,
  if◌then◌else◌, arith, Bool-cases, Option-cases, inl, inr, ◌⊎◌, ℤ, int_eq, pos, ltb, length,
}
use dlmalloc.Prelude.Dict.{lookup}
use dlmalloc.Text.{Text, codes}
use dlmalloc.Tuner.{
  Args, Tuner, Outcome, Measured, nothing, make_command, bin_command, update_best, measure,
  read_awsrun, read_local, run, print, add_time, new_tuner, trace_params,
}
use dlmalloc.Tuner.Output.{Value, int, Floats, parse_awsrun_stdout}

-- What a run does to the best result: it keeps it, and has not measured more than 0 or than that;
-- or it puts its own there, which is above.
abbrev pub Kept : {F : Type 0} → Floats F → Tuner F → Tuner F → Measured F → Type 0
Kept py t next result =
    (next.best_accuracy ≡ t.best_accuracy)
    × (next.best_make_cmd ≡ t.best_make_cmd)
    × (next.best_bin_cmd ≡ t.best_bin_cmd)
    × ((result.accuracy ≡ int (pos 0)) ⊎ (py.greater result.accuracy t.best_accuracy ≡ false))

abbrev pub Raised :
    {F : Type 0} → Floats F → Text → Option Text → Tuner F → Tuner F → Measured F → Type 0
Raised py make_cmd bin_cmd t next result =
    (py.greater result.accuracy t.best_accuracy ≡ true)
    × (next.best_accuracy ≡ result.accuracy)
    × (next.best_make_cmd ≡ make_cmd)
    × (some next.best_bin_cmd ≡ bin_cmd)

-- One of the two, if the run returns.
abbrev pub Step :
    {F : Type 0} → Floats F → Text → Option Text → Tuner F → Option (Tuner F × Measured F) → Type 0
Step py make_cmd bin_cmd t none = Unit
Step py make_cmd bin_cmd t (some (next, result)) =
    Kept py t next result ⊎ Raised py make_cmd bin_cmd t next result

Step-measure :
    {F : Type 0} (py : Floats F) (make_cmd bin_cmd : Text) (accuracy time : Value F) (t : Tuner F)
    → Step py make_cmd (some bin_cmd) t (some (measure py make_cmd bin_cmd accuracy time t))
unfolding measure update_best
Step-measure py make_cmd bin_cmd accuracy time t =
    elim (Bool-cases (py.greater accuracy t.best_accuracy)) [
      | inl e ↦ inr (ground arith)
      | inr e ↦ inl (ground arith)
    ]

Step-local :
    {F : Type 0} (py : Floats F) (make_cmd bin_cmd : Text) (out : Outcome F) (t : Tuner F)
    → Step py make_cmd (some bin_cmd) t (some (read_local py make_cmd bin_cmd out t))
unfolding read_local
Step-local py make_cmd bin_cmd out t =
    elim (Bool-cases (out.timeout || not (out.returncode == pos 0))) [
      | inl e ↦ rw (read_local, e) (inl (refl, refl, refl, inl refl))
      | inr e ↦ rw (read_local, e) (Step-measure py make_cmd bin_cmd _ _ t)
    ]

Step-awsrun :
    {F : Type 0} (py : Floats F) (make_cmd bin_cmd : Text) (out : Outcome F) (t : Tuner F)
    → Step py make_cmd (some bin_cmd) t (read_awsrun py make_cmd bin_cmd out t)
unfolding read_awsrun
Step-awsrun py make_cmd bin_cmd out t =
    let stats = parse_awsrun_stdout py out.stdout in
    elim (Bool-cases (ltb (length stats) 3)) [
      | inl e ↦ rw (read_awsrun, e) (inl (refl, refl, refl, inl refl))
      | inr e ↦ elim (Option-cases (lookup (codes "runtime") stats)) [
        | inl f ↦ rw (read_awsrun, e, f) (inl (refl, refl, refl, inl refl))
        | inr (runtime, f) ↦ elim (Option-cases (add_time py runtime)) [
          | inl g ↦ rw (read_awsrun, e, f, g) tt
          | inr (time, g) ↦ rw (read_awsrun, e, f, g) (Step-measure py make_cmd bin_cmd _ time t)
        ]
      ]
    ]

Step-either :
    {F : Type 0} (py : Floats F) (awsrun : Bool) (make_cmd bin_cmd : Text) (out : Outcome F)
    (t : Tuner F)
    → Step py make_cmd (some bin_cmd) t (
        if awsrun
        then read_awsrun py make_cmd bin_cmd out t
        else some (read_local py make_cmd bin_cmd out t))
Step-either py true make_cmd bin_cmd out t = Step-awsrun py make_cmd bin_cmd out t
Step-either py false make_cmd bin_cmd out t = Step-local py make_cmd bin_cmd out t

-- The best result does not depend on what is printed.
Step-told :
    {F : Type 0} (py : Floats F) (make_cmd line : Text) (bin_cmd : Option Text) (t : Tuner F)
    (r : Option (Tuner F × Measured F))
    → Step py make_cmd bin_cmd (print line t) r
    → Step py make_cmd bin_cmd t r
Step-told py make_cmd line bin_cmd t none h = tt
Step-told py make_cmd line bin_cmd t (some (next, result)) h = h

abbrev said : Bool → Text
said awsrun =
    if awsrun then codes "Running on AWS worker machines..." else codes "Running locally..."

pub Step-run :
    {F : Type 0} (py : Floats F) (args : Args) (cfg : List (Text × ℤ))
    (call_program : Text → ℕ → Outcome F) (t : Tuner F)
    → Step py (make_command args cfg) (bin_command args) t (run py args cfg call_program t)
unfolding run
Step-run py args cfg call_program t =
    let make_cmd = make_command args cfg in
    elim (Bool-cases (not ((call_program make_cmd args.make_timeout).returncode == pos 0))) [
      | inl e ↦ rw (run, e) (inl (refl, refl, refl, inl refl))
      | inr e ↦ elim (Option-cases (bin_command args)) [
        | inl f ↦ rw (run, e, f) tt
        | inr (bin_cmd, f) ↦
            rw (run, e, f)
              (Step-told py make_cmd (said args.awsrun) (some bin_cmd) t _ (
                Step-either py args.awsrun make_cmd bin_cmd
                  (call_program bin_cmd args.command_timeout) (print (said args.awsrun) t)))
      ]
    ]

bin_command≢none :
    {F : Type 0} (args : Args) (t : Tuner F) → new_tuner args ≡ some t → bin_command args ≢ none
unfolding new_tuner bin_command trace_params
bin_command≢none args t h = ground arith

pick : {A : Type 0} (test : Bool) (a b : A) → test ≡ false → (if test then a else b) ≡ b
pick true a b h = absurd (ground arith)
pick false a b h = refl

run-local :
    {F : Type 0} (py : Floats F) (args : Args) (cfg : List (Text × ℤ))
    (call_program : Text → ℕ → Outcome F) (t : Tuner F) (bin_cmd : Text)
    → not ((call_program (make_command args cfg) args.make_timeout).returncode == pos 0) ≡ false
    → bin_command args ≡ some bin_cmd
    → args.awsrun ≡ false
    → run py args cfg call_program t
      ≡ some (
          read_local py
            (make_command args cfg)
            bin_cmd
            (call_program bin_cmd args.command_timeout)
            (print (said args.awsrun) t))
unfolding run
run-local py args cfg call_program t bin_cmd e f local =
    let made = call_program (make_command args cfg) args.make_timeout in
    rw (run, e, f) (pick args.awsrun _ _ local)

-- For arguments that the constructor accepts, a local run returns, whatever make and mdriver give:
-- it raises no TypeError.
pub run-Returns :
    {F : Type 0} (py : Floats F) (args : Args) (cfg : List (Text × ℤ))
    (call_program : Text → ℕ → Outcome F) (made t : Tuner F)
    → new_tuner args ≡ some made
    → args.awsrun ≡ false
    → (next : Tuner F) × (result : Measured F) × (run py args cfg call_program t
        ≡ some (next, result))
unfolding run
run-Returns py args cfg call_program made t h local =
    elim (Bool-cases
      (not ((call_program (make_command args cfg) args.make_timeout).returncode == pos 0))) [
        | inl e ↦ (print (said args.awsrun) t, nothing, rw (run, e) refl)
        | inr e ↦ elim (Option-cases (bin_command args)) [
          | inl f ↦ absurd (bin_command≢none args made h f)
          | inr (bin_cmd, f) ↦ (_, _, run-local py args cfg call_program t bin_cmd e f local)
        ]
      ]
