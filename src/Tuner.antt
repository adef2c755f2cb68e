-- ===== src/Tuner.antt =====
-- mymalloc/opentuner_run.py and mymalloc/opentuner_params.py: the tuner of the allocator's
-- parameters. opentuner itself and Python's floats are parameters.
pub mod Parsing
pub mod Step
pub mod Best
pub mod Output
use mathlib.Core.List.{reverse}
use dlmalloc.Prelude.{
  ℕ, ◌+◌, Bool, true, false, not, ◌&&◌, ◌||◌, List, [], ◌∷◌, ◌++◌, Option, none, some, ℤ, pos,
  int_eq, ◌==◌, nat_eq, text_eq, if◌then◌else◌, length, ltb,
}
use dlmalloc.Prelude.Dict.{lookup, insert, has_key}
use dlmalloc.Text.{Text, codes, starts_with}
use dlmalloc.Report.{show_int}
use dlmalloc.Options.{parse_int}
use dlmalloc.Tuner.Output.{
  Value, Floats, try_num, prepend, split_colon, is_break, read_break, emit, final_line,
  splitlines_from, splitlines, Stats, read_stat, read_stats, parse_stdout, is_status,
  read_awsrun_stats, parse_awsrun_stdout, int, float, str,
}

-- `IntegerParameter`
pub record IntegerParameter : Type 0 where
  pub name : Text
  pub min_value : ℕ
  pub max_value : ℕ

-- `mdriver_manipulator`: the parameters that it was given
abbrev pub mdriver_manipulator : List IntegerParameter
mdriver_manipulator =
    record { name = codes "LARGE_BIN_SEARCH_MAX"; min_value = 0; max_value = 32 }
    ∷ record { name = codes "EXTENSION_SIZE"; min_value = 8; max_value = 2000 }
    ∷ []

-- The arguments that the tuner reads.
pub record Args : Type 0 where
  pub trace_file : Option Text
  pub trace_dir : Option Text
  pub awsrun : Bool
  pub make_timeout : ℕ
  pub command_timeout : ℕ

-- The attributes of `MdriverTuner`, and what was printed.
pub record Tuner (F : Type 0) : Type 0 where
  pub best_accuracy : Value F
  pub best_make_cmd : Text
  pub best_bin_cmd : Text
  pub output_lines : List Text

-- The class's attributes as they are at first.
abbrev pub initial : {F : Type 0} → Tuner F
initial = record {
  best_accuracy = int (pos 0);
  best_make_cmd = [];
  best_bin_cmd = [];
  output_lines = [];
}

-- `__init__`; none is AssertionError.
unfoldable pub new_tuner : {F : Type 0} → Args → Option (Tuner F)
new_tuner args = elim args.trace_file [
  | some trace_file ↦ some initial
  | none ↦ elim args.trace_dir [ none ↦ none | some trace_dir ↦ some initial ]
]

-- `call_program`, as far as it is read
pub record Outcome (F : Type 0) : Type 0 where
  pub returncode : ℤ
  pub stdout : Text
  pub time : F
  pub timeout : Bool

-- `Result`
pub record Measured (F : Type 0) : Type 0 where
  pub accuracy : Value F
  pub time : Value F

-- `manipulator`
abbrev pub manipulator : {F : Type 0} → Tuner F → List IntegerParameter
manipulator t = mdriver_manipulator

abbrev pub print : {F : Type 0} → Text → Tuner F → Tuner F
print line t = record t { output_lines = t.output_lines ++ line ∷ [] }

unfoldable pub show_value : {F : Type 0} → Floats F → Value F → Text
show_value py (int n) = show_int n
show_value py (float x) = py.show_float x
show_value py (str s) = s

-- The line on the traces; none is the TypeError for a directory that is None.
unfoldable pub trace_line : Args → Option Text
trace_line args = elim args.trace_file [
  | some trace_file ↦ some (codes "trace_file: " ++ trace_file)
  | none ↦ elim args.trace_dir [
    | none ↦ none
    | some trace_dir ↦ some (codes "trace_dir: " ++ trace_dir)
  ]
]

-- `save_final_config`
unfoldable pub save_final_config : {F : Type 0} → Floats F → Args → Tuner F → Option (Tuner F)
save_final_config py args t = elim (trace_line args) [
  | none ↦ none
  | some line ↦ some (
      print [] (
        print (codes "perfidx: " ++ show_value py t.best_accuracy) (
          print (codes "bin_cmd: " ++ t.best_bin_cmd)
            (print (codes "make_cmd: " ++ t.best_make_cmd) (print line t)))))
]

-- A configuration: the parameters with their values, in the order of `iteritems`.
unfoldable pub gcc_params : List (Text × ℤ) → Text
gcc_params [] = []
gcc_params ((key, value) ∷ cfg) =
    codes "-D " ++ key ++ codes "=" ++ show_int value ++ codes " " ++ gcc_params cfg

unfoldable pub make_command : Args → List (Text × ℤ) → Text
make_command args cfg =
    (if args.awsrun
      then codes "make partial_clean mdriver GETTIME=1 DEBUG=0 PARAMS=\""
      else codes "make partial_clean mdriver DEBUG=0 PARAMS=\"")
    ++ gcc_params cfg
    ++ codes "\""

unfoldable pub trace_params : Args → Option Text
trace_params args = elim args.trace_file [
  | some trace_file ↦ some (codes "-f " ++ trace_file)
  | none ↦ elim args.trace_dir [ none ↦ none | some trace_dir ↦ some (codes "-t " ++ trace_dir) ]
]

unfoldable pub bin_command : Args → Option Text
bin_command args = elim (trace_params args) [
  | none ↦ none
  | some params ↦
      some ((if args.awsrun then codes "awsrun ./mdriver -g " else codes "./mdriver -g ") ++ params)
]

-- `time += value`, where time is 0; none is the TypeError for a text.
unfoldable pub add_time : {F : Type 0} → Floats F → Value F → Option (Value F)
add_time py (int n) = some (int n)
add_time py (float x) = some (float (py.from_zero x))
add_time py (str s) = none

-- What a run returns when it has measured nothing.
abbrev pub nothing : {F : Type 0} → Measured F
nothing = record { accuracy = int (pos 0); time = int (pos 0) }

abbrev pub perfidx : {F : Type 0} → Stats F → Value F
perfidx result = elim (lookup (codes "perfidx") result) [ none ↦ int (pos 0) | some value ↦ value ]

-- The section under the lock.
unfoldable pub update_best : {F : Type 0} → Floats F → Value F → Text → Text → Tuner F → Tuner F
update_best py accuracy make_cmd bin_cmd t =
    if py.greater accuracy t.best_accuracy
    then record t { best_accuracy = accuracy; best_make_cmd = make_cmd; best_bin_cmd = bin_cmd }
    else t

unfoldable pub measure :
    {F : Type 0} → Floats F → Text → Text → Value F → Value F → Tuner F → Tuner F × Measured F
measure py make_cmd bin_cmd accuracy time t =
    (update_best py accuracy make_cmd bin_cmd t, record { accuracy = accuracy; time = time })

-- What `run` does with the outcome of mdriver on the worker machines.
unfoldable pub read_awsrun :
    {F : Type 0} → Floats F → Text → Text → Outcome F → Tuner F → Option (Tuner F × Measured F)
read_awsrun py make_cmd bin_cmd run_result t =
    let result = parse_awsrun_stdout py run_result.stdout in
    if ltb (length result) 3 then some (t, nothing) else elim (lookup (codes "runtime") result) [
      | none ↦ some (t, nothing)
      | some runtime ↦ elim (add_time py runtime) [
        | none ↦ none
        | some time ↦ some (measure py make_cmd bin_cmd (perfidx result) time t)
      ]
    ]

-- What `run` does with the outcome of a local mdriver.
unfoldable pub read_local :
    {F : Type 0} → Floats F → Text → Text → Outcome F → Tuner F → Tuner F × Measured F
read_local py make_cmd bin_cmd run_result t =
    let time = float (py.from_zero run_result.time) in
    if run_result.timeout || not (run_result.returncode == pos 0)
    then (t, record { accuracy = int (pos 0); time = time })
    else measure py make_cmd bin_cmd (perfidx (parse_stdout py run_result.stdout)) time t

-- `run`, for a configuration and what `call_program` gives for a command and a limit. none is
-- TypeError.
unfoldable pub run :
    {F : Type 0}
    → Floats F
    → Args
    → List (Text × ℤ)
    → (Text → ℕ → Outcome F)
    → Tuner F
    → Option (Tuner F × Measured F)
run py args cfg call_program t =
    let told =
      print
        (if args.awsrun
          then codes "Running on AWS worker machines..."
          else codes "Running locally...")
        t in
    let make_cmd = make_command args cfg in
    if not ((call_program make_cmd args.make_timeout).returncode == pos 0)
    then some (told, nothing)
    else elim (bin_command args) [
      | none ↦ none
      | some bin_cmd ↦
          let run_result = call_program bin_cmd args.command_timeout in
          if args.awsrun
          then read_awsrun py make_cmd bin_cmd run_result told
          else some (read_local py make_cmd bin_cmd run_result told)
    ]
