-- ===== src/Tuner/Parsing.antt =====
-- mymalloc/opentuner_run.py, `parse_stdout` and `parse_awsrun_stdout`: what they read from lines
-- that were printed.
use mathlib.Core.List.{reverse, reverse-cons}
use dlmalloc.Prelude.{
  ◌≡◌, refl, sym, ◌∙◌, ap, Bool, true, false, not, ◌&&◌, List, [], ◌∷◌, ◌++◌, append-nil,
  append_assoc, none, some, ◌==◌, nat_eq, text_eq, arith,
}
use dlmalloc.Prelude.Dict.{insert}
use dlmalloc.Text.{Text}
use dlmalloc.Tuner.Output.{
  Floats, Stats, try_num, split_colon, is_break, splitlines_from, splitlines, read_stat, read_stats,
  parse_stdout,
}

-- A text with no line break, and one with no colon either.
abbrev pub is_line : Text → Bool
is_line [] = true
is_line (c ∷ s) = not (is_break c) && is_line s

abbrev pub is_key : Text → Bool
is_key [] = true
is_key (c ∷ s) = not (is_break c) && not (c == b':') && is_key s

-- `key:value`, as mdriver prints it
abbrev pub stat_line : Text × Text → Text
stat_line (key, value) = key ++ b':' ∷ value

abbrev pub AllStats : List (Text × Text) → Type 0
AllStats [] = Unit
AllStats ((key, value) ∷ stats) = (is_key key ≡ true) × (is_line value ≡ true) × AllStats stats

abbrev pub print_stats : List (Text × Text) → Text
print_stats [] = []
print_stats (stat ∷ stats) = stat_line stat ++ b'\n' ∷ print_stats stats

abbrev pub stat_lines : List (Text × Text) → List Text
stat_lines [] = []
stat_lines (stat ∷ stats) = stat_line stat ∷ stat_lines stats

-- The assignments `result[key] = try_num(value)`, one after the other.
abbrev pub assign_all : {F : Type 0} → Floats F → List (Text × Text) → Stats F → Stats F
assign_all py [] result = result
assign_all py ((key, value) ∷ stats) result =
    assign_all py stats (insert key (try_num py value) result)

split_colon-stat :
    (key value : Text)
    → is_key key ≡ true
    → split_colon (stat_line (key, value)) ≡ some (key, value)
unfolding split_colon
split_colon-stat [] value h = refl
split_colon-stat (c ∷ key) value h =
    let s = split_colon-stat key value (ground arith) in
    let n : (c == b':') ≡ false = ground arith in rw (split_colon, n, s) refl

is_line-stat :
    (key value : Text)
    → is_key key ≡ true
    → is_line value ≡ true
    → is_line (stat_line (key, value)) ≡ true
is_line-stat [] value k v = v
is_line-stat (c ∷ key) value k v = ground (arith, is_line-stat key value (ground arith) v)

splitlines-line :
    (past line rest : Text)
    → is_line line ≡ true
    → splitlines_from false past (line ++ b'\n' ∷ rest)
      ≡ (reverse past ++ line) ∷ splitlines_from false [] rest
unfolding splitlines_from
splitlines-line past [] rest h =
    ap (λ l. l ∷ splitlines_from false [] rest) (sym (append-nil (reverse past)))
splitlines-line past (c ∷ line) rest h =
    let n : is_break c ≡ false = ground arith in
    let same : reverse (c ∷ past) ++ line ≡ reverse past ++ c ∷ line =
      ap (λ l. l ++ line) (reverse-cons c past) ∙ append_assoc (reverse past) (c ∷ []) line in
    rw n (
      splitlines-line (c ∷ past) line rest (ground arith)
      ∙ ap (λ l. l ∷ splitlines_from false [] rest) same)

splitlines-print :
    (stats : List (Text × Text))
    → AllStats stats
    → splitlines (print_stats stats) ≡ stat_lines stats
unfolding splitlines splitlines_from
splitlines-print [] h = refl
splitlines-print ((key, value) ∷ stats) h =
    splitlines-line [] (stat_line (key, value)) (print_stats stats) (is_line-stat key value h.0 h.1)
    ∙ ap (λ l. stat_line (key, value) ∷ l) (splitlines-print stats h.2)

read_stat-line :
    {F : Type 0} (py : Floats F) (key value : Text) (result : Stats F)
    → is_key key ≡ true
    → read_stat py (stat_line (key, value)) result ≡ insert key (try_num py value) result
unfolding read_stat
read_stat-line py key value result h =
    ap (λ parts. elim parts [ none ↦ result | some (k, v) ↦ insert k (try_num py v) result ])
      (split_colon-stat key value h)

read_stats-lines :
    {F : Type 0} (py : Floats F) (stats : List (Text × Text)) (result : Stats F)
    → AllStats stats
    → read_stats py (stat_lines stats) result ≡ assign_all py stats result
unfolding read_stats
read_stats-lines py [] result h = refl
read_stats-lines py ((key, value) ∷ stats) result h =
    ap (read_stats py (stat_lines stats)) (read_stat-line py key value result h.0)
    ∙ read_stats-lines py stats (insert key (try_num py value) result) h.2

-- Printed lines `key:value`, with no colon in a key and no line break in either, are parsed to the
-- entries that they were printed from: each key has the number of its value, or the value itself if
-- it is none; of two lines with one key the later counts.
pub parse_stdout-print :
    {F : Type 0} (py : Floats F) (stats : List (Text × Text))
    → AllStats stats
    → parse_stdout py (print_stats stats) ≡ assign_all py stats []
unfolding parse_stdout
parse_stdout-print py stats h =
    ap (λ lines. read_stats py lines []) (splitlines-print stats h) ∙ read_stats-lines py stats [] h
