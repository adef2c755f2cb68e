-- ===== src/Tuner/Output.antt =====
-- mymalloc/opentuner_run.py: `try_num`, `parse_stdout` and `parse_awsrun_stdout`. Python's floats
-- are a parameter.
use mathlib.Core.List.{reverse}
use dlmalloc.Prelude.{
  ℕ, Bool, false, ◌&&◌, ◌||◌, List, [], ◌∷◌, Option, none, some, ℤ, int_eq, ◌==◌, nat_eq, text_eq,
  if◌then◌else◌,
}
use dlmalloc.Prelude.Dict.{insert}
use dlmalloc.Text.{Text, codes, starts_with}
use dlmalloc.Options.{parse_int}

-- A value of Python, of the types that the tuner meets.
pub data Value (F : Type 0) : Type 0 where
  int : ℤ → Value F
  float : F → Value F
  str : Text → Value F

-- Python's floats: `float(s)` with none for ValueError, `0 + x`, `str(x)`, and Python 2's `>`
-- between values of all three types.
pub record Floats (F : Type 0) : Type 0 where
  pub parse_float : Text → Option F
  pub from_zero : F → F
  pub show_float : F → Text
  pub greater : Value F → Value F → Bool

-- `try_num`
unfoldable pub try_num : {F : Type 0} → Floats F → Text → Value F
try_num py s = elim (parse_int s) [
  | some n ↦ int n
  | none ↦ elim (py.parse_float s) [ none ↦ str s | some x ↦ float x ]
]

abbrev pub prepend : ℕ → Option (Text × Text) → Option (Text × Text)
prepend c none = none
prepend c (some (key, value)) = some (c ∷ key, value)

-- `line.split(':', 1)`, if it has two parts
unfoldable pub split_colon : Text → Option (Text × Text)
split_colon [] = none
split_colon (c ∷ s) = let rest = split_colon s in if c == b':' then some ([], s) else prepend c rest

abbrev pub is_break : ℕ → Bool
is_break c = c == b'\n' || c == b'\r'

-- A character of `splitlines`, behind a `\r` or not, for the line read so far, reversed: the line
-- that it ends, whether it is a `\r`, and the line read then. The `\n` of `\r\n` ends no line.
abbrev pub read_break : Bool → Text → ℕ → Option Text × Bool × Text
read_break behind_return past c =
    if behind_return && c == b'\n'
    then (none, false, past)
    else if is_break c
    then (some (reverse past), c == b'\r', [])
    else (none, false, c ∷ past)

abbrev pub emit : Option Text → List Text → List Text
emit none lines = lines
emit (some line) lines = line ∷ lines

-- A last line that is empty does not count.
abbrev pub final_line : Text → List Text
final_line [] = []
final_line (c ∷ past) = reverse (c ∷ past) ∷ []

unfoldable pub splitlines_from : Bool → Text → Text → List Text
splitlines_from behind_return past [] = final_line past
splitlines_from behind_return past (c ∷ s) =
    let (line, returned, read) = read_break behind_return past c in
    emit line (splitlines_from returned read s)

-- `stdout.splitlines()`
unfoldable pub splitlines : Text → List Text
splitlines s = splitlines_from false [] s

abbrev pub Stats : Type 0 → Type 0
Stats F = List (Text × Value F)

-- `result[key] = try_num(value)`, for a line with a colon
unfoldable pub read_stat : {F : Type 0} → Floats F → Text → Stats F → Stats F
read_stat py line result = elim (split_colon line) [
  | none ↦ result
  | some (key, value) ↦ insert key (try_num py value) result
]

unfoldable pub read_stats : {F : Type 0} → Floats F → List Text → Stats F → Stats F
read_stats py [] result = result
read_stats py (line ∷ lines) result = read_stats py lines (read_stat py line result)

-- `parse_stdout`
unfoldable pub parse_stdout : {F : Type 0} → Floats F → Text → Stats F
parse_stdout py stdout = read_stats py (splitlines stdout) []

abbrev pub is_status : Text → Bool
is_status line =
    starts_with line (codes "Submitting Job:")
    || starts_with line (codes "Waiting for job to finish")

unfoldable pub read_awsrun_stats : {F : Type 0} → Floats F → List Text → Stats F → Stats F
read_awsrun_stats py [] result = result
read_awsrun_stats py (line ∷ lines) result =
    read_awsrun_stats py lines (if is_status line then result else read_stat py line result)

-- `parse_awsrun_stdout`
unfoldable pub parse_awsrun_stdout : {F : Type 0} → Floats F → Text → Stats F
parse_awsrun_stdout py stdout = read_awsrun_stats py (splitlines stdout) []
