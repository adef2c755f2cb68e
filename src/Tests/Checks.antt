-- ===== src/Tests/Checks.antt =====
-- The theorems on braces, macros, the map of required headers, whole runs and the tuner, on
-- concrete inputs.
use dlmalloc.Options.{parse_int}
use dlmalloc.Regex.{found, matches}
use dlmalloc.Prelude.{
  ℕ, zero, suc, not, ltb, ltb_ℤ, get_or, nat_eq, if◌then◌else◌, ◌≡◌, ◌<◌, refl, arith, Bool, true,
  false, List, [], ◌∷◌, ◌++◌, none, some, pos, ◌==◌, text_eq, ℤ, negsuc, int_eq, negsuc,
}
use dlmalloc.Prelude.Dict.{lookup}
use dlmalloc.Text.{Text, codes, starts_with, split, occurs, ends_with, count}
use dlmalloc.Braces.{unended, join_lines, check_braces, check_else_braces}
use dlmalloc.Braces.Joining.{join_lines-Settled, check_braces-never}
use dlmalloc.LineChecks.{is_blank_line, get_previous_non_blank_line}
use dlmalloc.MacroChecks.{check_replacement, expect_false_m, above, suffix}
use dlmalloc.MacroChecks.Suggested.{check_replacement_lem, family, ending, holds}
use dlmalloc.WhatYouUse.{require_lines, require_string, require_entities, uses_string, require_line}
use dlmalloc.WhatYouUse.Tables.{template_entities_of}
use dlmalloc.WhatYouUse.Latest.{latest, require_lines_lem}
use dlmalloc.Tuner.{Args, Tuner, Outcome, Measured, nothing, run, new_tuner}
use dlmalloc.Tuner.Output.{
  Floats, Value, int, float, str, parse_stdout, try_num, splitlines, read_stat, split_colon,
  read_stats, splitlines_from,
}
use dlmalloc.Tuner.Parsing.{print_stats, assign_all, parse_stdout-print}
use dlmalloc.Tuner.Best.{Ordered, Runs, start, step, NoneAbove, Remembered, reached-Best}
use dlmalloc.Tuner.Step.{run-Returns}

abbrev block : List Text
block = codes "" ∷ codes "  { a; };" ∷ []

join_lines-Settled_example : join_lines 9 block (pos 1) (codes "  { a; };") ≡ none
unfolding join_lines matches count get_previous_non_blank_line is_blank_line
join_lines-Settled_example = join_lines-Settled 3 block 1 (codes "  { a; };") (omega arith) refl 9

top_is_blank : (i : ℕ) → i < 1 → is_blank_line (get_or block i []) ≡ true
unfolding is_blank_line
top_is_blank zero l = refl
top_is_blank (suc i) l = absurd (omega arith)

check_braces-never_example : check_braces 1000 (codes "a.c") block 1 ≡ unended
unfolding matches check_else_braces found
check_braces-never_example =
    check_braces-never 1000 (codes "a.c") block 1 [] (λ i l. top_is_blank i l) refl refl

check_replacement_lem_example :
    (op' : dlmalloc.MacroChecks.Operator) × (check_replacement expect_false_m above
      ≡ family expect_false_m ++ suffix op' ++ ending expect_false_m)
    × ((a b : ℕ) → holds op' a b ≡ not (holds above a b))
check_replacement_lem_example = check_replacement_lem expect_false_m above

abbrev code_lines : List Text
code_lines =
    codes "std::vector<int> v;" ∷ codes "#define string" ∷ codes "string s; vector <char> w;" ∷ []

require_lines_lem_example :
    lookup (codes "<vector>") (require_lines 0 code_lines [])
    ≡ latest (codes "<vector>") 0 code_lines
require_lines_lem_example = require_lines_lem (codes "<vector>") code_lines

-- What the map then holds.
require_lines_run :
    lookup (codes "<vector>") (require_lines 0 code_lines []) ≡ some (2, codes "vector<>")
unfolding require_lines require_line occurs require_entities template_entities_of found
    require_string uses_string ends_with
require_lines_run = refl

-- Python 2's `>` with no floats: texts are above numbers, and compared by their order.
abbrev text_above : Text → Text → Bool
text_above [] b = false
text_above (c ∷ a) [] = true
text_above (c ∷ a) (d ∷ b) = let rest = text_above a b in if c == d then rest else ltb d c

abbrev is_greater : Value ℤ → Value ℤ → Bool
is_greater (int a) (int b) = ltb_ℤ b a
is_greater (int a) (float b) = ltb_ℤ b a
is_greater (float a) (int b) = ltb_ℤ b a
is_greater (float a) (float b) = ltb_ℤ b a
is_greater (str a) (str b) = text_above a b
is_greater (str a) (int b) = true
is_greater (str a) (float b) = true
is_greater (int a) (str b) = false
is_greater (float a) (str b) = false

text_above_trans :
    (a b c : Text) → text_above a b ≡ true → text_above b c ≡ true → text_above a c ≡ true
text_above_trans [] b c h k = absurd (ground arith)
text_above_trans (x ∷ a) [] c h k = absurd (ground arith)
text_above_trans (x ∷ a) (y ∷ b) [] h k = refl
text_above_trans (x ∷ a) (y ∷ b) (z ∷ c) h k = ground (arith, text_above_trans a b c)

text_above_irrefl : (a : Text) → text_above a a ≡ false
text_above_irrefl [] = refl
text_above_irrefl (x ∷ a) = ground (arith, text_above_irrefl a)

-- Python 2 with whole numbers in the place of floats.
abbrev no_floats : Floats ℤ
no_floats = record {
  parse_float = λ s. none;
  from_zero = λ x. x;
  show_float = λ x. [];
  greater = is_greater;
}

abbrev given_stats : List (Text × Text)
given_stats =
    (codes "perfidx", codes "91")
    ∷ (codes "note", codes "a:b")
    ∷ (codes "perfidx", codes " 93")
    ∷ []

parse_stdout-print_example :
    parse_stdout no_floats (print_stats given_stats) ≡ assign_all no_floats given_stats []
parse_stdout-print_example =
    parse_stdout-print no_floats given_stats (refl, refl, (refl, refl, (refl, refl, tt)))

-- What is read from these lines.
parse_stdout_run :
    parse_stdout no_floats (print_stats given_stats)
    ≡ (codes "perfidx", int (pos 93)) ∷ (codes "note", str (codes "a:b")) ∷ []
unfolding parse_stdout read_stats splitlines splitlines_from read_stat split_colon try_num parse_int
parse_stdout_run = refl

abbrev local_args : Args
local_args = record {
  trace_file = none;
  trace_dir = some (codes "traces");
  awsrun = false;
  make_timeout = 20;
  command_timeout = 60;
}

-- make succeeds, and mdriver prints its index.
abbrev prints : Text → Text → ℕ → Outcome ℤ
prints stdout command limit = record {
  returncode = pos 0;
  stdout = stdout;
  time = pos 1;
  timeout = false;
}

run-Returns_example :
    (next : Tuner ℤ) × (result : Measured ℤ) × (run no_floats local_args
        ((codes "N", pos 8) ∷ [])
        (prints (codes "perfidx:7\n"))
        dlmalloc.Tuner.initial
      ≡ some (next, result))
unfolding new_tuner
run-Returns_example =
    run-Returns no_floats local_args ((codes "N", pos 8) ∷ []) (prints (codes "perfidx:7\n"))
      dlmalloc.Tuner.initial dlmalloc.Tuner.initial refl refl

above_trans :
    (a b c : Value ℤ) → is_greater a b ≡ true → is_greater b c ≡ true → is_greater a c ≡ true
above_trans (str a) (str b) (str c) h k = text_above_trans a b c h k
above_trans a b c h k = ground arith

above_irrefl : (a : Value ℤ) → is_greater a a ≡ false
above_irrefl (int (pos n)) = ground arith
above_irrefl (int (negsuc n)) = ground arith
above_irrefl (float (pos n)) = ground arith
above_irrefl (float (negsuc n)) = ground arith
above_irrefl (str a) = text_above_irrefl a

above_Ordered : Ordered no_floats
above_Ordered = record { greater_trans = above_trans; greater_irrefl = above_irrefl }

abbrev config : List (Text × ℤ)
config = (codes "EXTENSION_SIZE", pos 64) ∷ []

abbrev after : Text → Tuner ℤ → Tuner ℤ × Measured ℤ
after stdout t = elim (run no_floats local_args config (prints stdout) t) [
  | none ↦ (t, nothing)
  | some r ↦ r
]

abbrev good : Tuner ℤ × Measured ℤ
good = after (codes "perfidx:91\n") dlmalloc.Tuner.initial

abbrev worse : Tuner ℤ × Measured ℤ
worse = after (codes "perfidx:7\n") good.0

abbrev two_runs : Runs ℤ
two_runs = (config, worse.1) ∷ (config, good.1) ∷ []

reached-Best_example :
    NoneAbove no_floats worse.0.best_accuracy two_runs × Remembered local_args worse.0 two_runs
unfolding dlmalloc.Options.parse_int dlmalloc.Options.parse_nat dlmalloc.Report.show
    dlmalloc.Report.show_int dlmalloc.Text.is_space dlmalloc.Text.lstrip dlmalloc.Text.rstrip
    dlmalloc.Text.starts_with dlmalloc.Text.strip dlmalloc.Tuner.add_time dlmalloc.Tuner.bin_command
    dlmalloc.Tuner.gcc_params dlmalloc.Tuner.make_command dlmalloc.Tuner.measure
    dlmalloc.Tuner.Output.parse_awsrun_stdout dlmalloc.Tuner.Output.parse_stdout
    dlmalloc.Tuner.read_awsrun dlmalloc.Tuner.Output.read_awsrun_stats dlmalloc.Tuner.read_local
    dlmalloc.Tuner.Output.read_stat dlmalloc.Tuner.Output.read_stats dlmalloc.Tuner.run
    dlmalloc.Tuner.Output.split_colon dlmalloc.Tuner.Output.splitlines
    dlmalloc.Tuner.Output.splitlines_from dlmalloc.Tuner.trace_params dlmalloc.Tuner.Output.try_num
    dlmalloc.Tuner.update_best
reached-Best_example = reached-Best no_floats above_Ordered local_args two_runs worse.0 (
    step ((config, good.1) ∷ []) good.0 worse.0 config (prints (codes "perfidx:7\n")) worse.1
      (step [] dlmalloc.Tuner.initial good.0 config (prints (codes "perfidx:91\n")) good.1 start
        refl)
      refl)

-- The tuner still has the first result.
best_run : worse.0.best_accuracy ≡ int (pos 91)
unfolding dlmalloc.Options.parse_int dlmalloc.Options.parse_nat dlmalloc.Report.show
    dlmalloc.Report.show_int dlmalloc.Text.is_space dlmalloc.Text.lstrip dlmalloc.Text.rstrip
    dlmalloc.Text.starts_with dlmalloc.Text.strip dlmalloc.Tuner.add_time dlmalloc.Tuner.bin_command
    dlmalloc.Tuner.gcc_params dlmalloc.Tuner.make_command dlmalloc.Tuner.measure
    dlmalloc.Tuner.Output.parse_awsrun_stdout dlmalloc.Tuner.Output.parse_stdout
    dlmalloc.Tuner.read_awsrun dlmalloc.Tuner.Output.read_awsrun_stats dlmalloc.Tuner.read_local
    dlmalloc.Tuner.Output.read_stat dlmalloc.Tuner.Output.read_stats dlmalloc.Tuner.run
    dlmalloc.Tuner.Output.split_colon dlmalloc.Tuner.Output.splitlines
    dlmalloc.Tuner.Output.splitlines_from dlmalloc.Tuner.trace_params dlmalloc.Tuner.Output.try_num
    dlmalloc.Tuner.update_best
best_run = refl
