-- ===== src/Options.antt =====
-- clint.py, `ParseArguments`: the command line of a run, from what `getopt.getopt` makes of it to
-- the options of the lint state. It ends with the files to lint or with an exit of the process.
pub mod Usage
pub mod Accepted
use dlmalloc.Prelude.{
  ℕ, zero, suc, ◌+◌, ◌-◌, ◌*◌, Bool, true, false, not, ◌&&◌, ◌||◌, List, [], ◌∷◌, ◌++◌, Option,
  none, some, ◌==◌, text_eq, nat_eq, leb, if◌then◌else◌, contains, ℤ, pos, negsuc,
}
use mathlib.Core.List.{map}
use dlmalloc.Text.{Text, codes, strip}
use dlmalloc.Report.{error_categories}
use dlmalloc.LintState.{
  LintState, set_output_format, set_verbose_level, set_filters, set_counting_style,
}
use dlmalloc.Options.Usage.{usage}

-- How the process ends early: `sys.exit` with what was written to stderr, or a ValueError.
pub data Exit : Type 0 where
  sys_exit : List Text → ℕ → Exit
  value_error : Text → Exit

pub data Result (A : Type 0) : Type 0 where
  done : A → Result A
  stop : Exit → Result A

-- `PrintUsage`; a message is the argument of `sys.exit`, which writes it and ends with status 1.
abbrev pub print_usage : Option Text → Exit
print_usage none = sys_exit (usage ∷ []) 1
print_usage (some message) = sys_exit (usage ∷ (codes "\nFATAL ERROR: " ++ message) ∷ []) 1

-- `PrintCategories`
abbrev pub print_categories : Exit
print_categories = sys_exit (map (λ c. codes "  " ++ c ++ codes "\n") error_categories) 0

-- Decimal digits, with the value of those before.
parse_digits : ℕ → Text → Option ℕ
parse_digits n [] = some n
parse_digits n (c ∷ s) =
    let more = parse_digits (n * 10 + (c - b'0')) s in
    if leb b'0' c && leb c b'9' then more else none

unfoldable pub parse_nat : Text → Option ℕ
unfolding parse_digits
parse_nat [] = none
parse_nat (c ∷ s) = parse_digits 0 (c ∷ s)

abbrev pub negate : ℕ → ℤ
negate zero = pos 0
negate (suc n) = negsuc n

abbrev with_sign : Bool → Option ℕ → Option ℤ
with_sign minus none = none
with_sign true (some n) = some (negate n)
with_sign false (some n) = some (pos n)

-- `int(val)`; `none` is ValueError.
unfoldable pub parse_int : Text → Option ℤ
unfolding parse_nat strip
parse_int val = elim (strip val) [
  | [] ↦ none
  | c ∷ s ↦
      if c == b'-'
      then with_sign true (parse_nat s)
      else if c == b'+'
      then with_sign false (parse_nat s)
      else with_sign false (parse_nat (c ∷ s))
]

-- The variables of ParseArguments.
pub record Options : Type 0 where
  pub verbosity : ℤ
  pub output_format : Text
  pub filters : Text
  pub counting_style : Text

abbrev pub output_formats : List Text
output_formats = codes "emacs" ∷ codes "vs7" ∷ []

abbrev pub counting_styles : List Text
counting_styles = codes "total" ∷ codes "toplevel" ∷ codes "detailed" ∷ []

unfoldable pub read_verbosity : Text → Options → Result Options
read_verbosity val o = elim (parse_int val) [
  | none ↦ stop (value_error val)
  | some verbosity ↦ done (record o { verbosity = verbosity })
]

unfoldable pub read_output : Text → Options → Result Options
read_output val o =
    if contains output_formats val
    then done (record o { output_format = val })
    else stop (print_usage (some (codes "The only allowed output formats are emacs and vs7.")))

unfoldable pub read_filter : Text → Options → Result Options
read_filter [] o = stop print_categories
read_filter (c ∷ val) o = done (record o { filters = c ∷ val })

unfoldable pub read_counting : Text → Options → Result Options
read_counting val o =
    if contains counting_styles val
    then done (record o { counting_style = val })
    else stop
        (print_usage (some (codes "Valid counting options are total, toplevel, and detailed")))

-- One round of the loop over the options.
unfoldable pub read_option : Text → Text → Options → Result Options
read_option opt val o =
    if opt == codes "--help"
    then stop (print_usage none)
    else if opt == codes "--output"
    then read_output val o
    else if opt == codes "--verbose"
    then read_verbosity val o
    else if opt == codes "--filter"
    then read_filter val o
    else if opt == codes "--counting"
    then read_counting val o
    else done o

unfoldable pub read_options : List (Text × Text) → Options → Result Options
read_options [] o = done o
read_options ((opt, val) ∷ opts) o = elim (read_option opt val o) [
  | stop exit ↦ stop exit
  | done next ↦ read_options opts next
]

-- The calls that store the options.
unfoldable pub store_options : Options → LintState → Result LintState
store_options o st =
    let (verbose, previous) =
      set_verbose_level o.verbosity (set_output_format o.output_format st) in
    let (filtered, unsigned) = set_filters o.filters verbose in
    elim unsigned [
      | none ↦ done (set_counting_style o.counting_style filtered)
      | some filt ↦ stop (value_error filt)
    ]

abbrev pub starting : LintState → Options
starting st = record {
  verbosity = st.verbose_level;
  output_format = st.output_format;
  filters = [];
  counting_style = [];
}

-- The end of ParseArguments, behind the loop.
unfoldable pub with_files : List Text → Options → LintState → Result (LintState × List Text)
with_files [] o st = stop (print_usage (some (codes "No files were specified.")))
with_files (f ∷ fs) o st = elim (store_options o st) [
  | stop exit ↦ stop exit
  | done next ↦ done (next, f ∷ fs)
]

-- `ParseArguments`, for the options and the files that `getopt` finds; `none` is GetoptError.
unfoldable pub parse_arguments :
    Option (List (Text × Text) × List Text) → LintState → Result (LintState × List Text)
parse_arguments none st = stop (print_usage (some (codes "Invalid arguments.")))
parse_arguments (some (opts, filenames)) st = elim (read_options opts (starting st)) [
  | stop exit ↦ stop exit
  | done o ↦ with_files filenames o st
]
