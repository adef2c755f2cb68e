-- ===== src/FunctionState.antt =====
-- clint.py, `class _FunctionState` and `CheckForFunctionLengths`: the length of each function
-- body. `linenum` is below the number of lines in every call; `line_at` reads an empty line
-- beyond, where Python would raise IndexError.
pub mod Trigger
use dlmalloc.Prelude.{
  ℕ, zero, suc, ◌+◌, ◌*◌, ◌/◌, ◌^◌, Bool, true, false, not, ◌||◌, List, [], ◌∷◌, ◌++◌, Option, none,
  some, ℤ, pos, negsuc, ◌==◌, text_eq, nat_eq, ltb, if◌then◌else◌, get_or, drop,
}
use dlmalloc.Text.{Text, codes, lstrip, split_space}
use dlmalloc.Regex.{
  Regex, Cursor, ◌⨾◌, ◌⊕◌, star, group, line_start, line_end, search_in, match, matches, found,
  group_of,
}
use dlmalloc.Regex.Patterns.{lit, one_of, words, space, dot, plus}
use dlmalloc.Report.{Event, error, show}

pub record FunctionState : Type 0 where
  pub in_a_function : Bool
  pub lines_in_function : ℕ
  pub current_function : Text

-- `__init__`
abbrev pub initial : FunctionState
initial = record { in_a_function = false; lines_in_function = 0; current_function = [] }

-- `Begin`
unfoldable pub begin : Text → FunctionState → FunctionState
begin function_name st = record {
  in_a_function = true;
  lines_in_function = 0;
  current_function = function_name;
}

-- `Count`
unfoldable pub count_line : FunctionState → FunctionState
count_line st =
    if st.in_a_function then record st { lines_in_function = st.lines_in_function + 1 } else st

-- `End`
unfoldable pub end : FunctionState → FunctionState
end st = record st { in_a_function = false }

-- T(EST|est)
abbrev pub re_test : Regex
re_test = lit "T" ⨾ group 1 (lit "EST" ⊕ lit "est")

-- `_TEST_TRIGGER` or `_NORMAL_TRIGGER`
unfoldable pub base_trigger : Text → ℕ
unfolding matches
base_trigger function = if matches re_test function then 400 else 250

-- `lines > base * 2**level`; for a negative level the right side is a fraction.
abbrev pub exceeds : ℕ → ℕ → ℤ → Bool
exceeds lines base (pos level) = ltb (base * 2 ^ level) lines
exceeds lines base (negsuc n) = ltb base (lines * 2 ^ suc n)

-- `'%d' % trigger`
abbrev pub shown_trigger : ℕ → ℤ → ℕ
shown_trigger base (pos level) = base * 2 ^ level
shown_trigger base (negsuc n) = base / 2 ^ suc n

log2_from : ℕ → ℕ → ℕ
log2_from zero n = 0
log2_from (suc fuel) n = let more = suc (log2_from fuel (n / 2)) in if ltb n 2 then 0 else more

-- `int(math.log(n, 2))`, for 0 < n
unfoldable pub log2 : ℕ → ℕ
unfolding log2_from
log2 n = log2_from n n

-- `error_level`; `none` is the ValueError of `math.log(0, 2)`, since `/` divides integers
unfoldable pub error_level : ℕ → ℕ → Option ℕ
error_level lines base =
    if lines / base == 0
    then none
    else some (if ltb 5 (log2 (lines / base)) then 5 else log2 (lines / base))

abbrev pub long_function_message : Text → ℕ → ℕ → Text
long_function_message function lines trigger =
    codes "Small and focused functions are preferred: "
    ++ function
    ++ codes " has "
    ++ show lines
    ++ codes " non-comment lines (error triggered by exceeding "
    ++ show trigger
    ++ codes " lines)."

-- `Check`; `verbose` is `_VerboseLevel()`, and `none` is ValueError.
unfoldable pub check : ℤ → Text → ℕ → FunctionState → Option (List Event)
unfolding error_level
check verbose filename linenum st =
    let base = base_trigger st.current_function in
    if exceeds st.lines_in_function base verbose
    then elim (error_level st.lines_in_function base) [
      | none ↦ none
      | some level ↦ some (
          error filename linenum (codes "readability/fn_size") level (
            long_function_message st.current_function st.lines_in_function
              (shown_trigger base verbose))
          ∷ [])
    ]
    else some []

-- (\w(\w|::|\*|\&|\s)*)\(
abbrev pub re_declaration : Regex
re_declaration =
    group 1 (one_of words ⨾ star (group 2 (one_of words ⊕ lit "::" ⊕ lit "*" ⊕ lit "&" ⊕ space)))
    ⨾ lit "("

-- [A-Z_]+$
abbrev pub re_macro : Regex
re_macro = plus (one_of ((b'A', b'Z') ∷ (b'_', b'_') ∷ [])) ⨾ line_end

-- ((\w|:)*)\(
abbrev pub re_name : Regex
re_name = group 1 (star (group 2 (one_of words ⊕ lit ":"))) ⨾ lit "("

-- (\(.*\))
abbrev pub re_parameters : Regex
re_parameters = group 1 (lit "(" ⨾ star dot ⨾ lit ")")

-- ^\}\s*$ and ^\s*$
abbrev pub re_function_end : Regex
re_function_end = line_start ⨾ lit "}" ⨾ star space ⨾ line_end

abbrev pub re_blank : Regex
re_blank = line_start ⨾ star space ⨾ line_end

abbrev last_or : Text → List Text → Text
last_or d [] = d
last_or d (x ∷ xs) = last_or x xs

-- The first group of a match; the empty text if it took no part.
abbrev first_group : Cursor → Text
first_group b = elim (group_of 1 b.groups) [ none ↦ [] | some g ↦ g ]

-- The first group of a search; the empty text if there is no match.
abbrev search_group : Regex → Text → Text
search_group p s = elim (search_in p s) [ none ↦ [] | some (a, b) ↦ first_group b ]

-- Whether the line declares a function: its name is no macro's, or it is TEST or TEST_F.
unfoldable pub starts_function : Text → Bool
unfolding split_space
starts_function line = elim (match re_declaration line) [
  | none ↦ false
  | some b ↦
      let function_name = last_or [] (split_space (first_group b)) in
      function_name == codes "TEST"
      || function_name == codes "TEST_F"
      || not (matches re_macro function_name)
]

-- The name under which a body that opens is tracked. `re_name` is found, since the line has a (.
unfoldable pub tracked_name : Text → Text → Text
tracked_name line joined_line =
    let function = search_group re_name line in
    if matches (lit "TEST") function
    then function ++ search_group re_parameters joined_line
    else function ++ codes "()"

-- The loop over the lines from the declaration on: the state when a body was found, or none.
find_body : Text → Text → List Text → FunctionState → Option FunctionState
find_body line joined_line [] st = none
find_body line joined_line (start_line ∷ lines) st =
    let joined = joined_line ++ codes " " ++ lstrip start_line in
    let later = find_body line joined lines st in
    if found (lit ";" ⊕ lit "}") start_line
    then some st
    else if found (lit "{") start_line
    then some (begin (tracked_name line joined) st)
    else later

abbrev pub line_at : List Text → ℕ → Text
line_at lines linenum = get_or lines linenum []

-- `CheckForFunctionLengths` on `clean_lines.lines`; `none` is ValueError.
unfoldable pub check_for_function_lengths :
    ℤ → Text → List Text → ℕ → FunctionState → Option (FunctionState × List Event)
unfolding find_body starts_function
check_for_function_lengths verbose filename lines linenum st =
    let line = line_at lines linenum in
    if starts_function line
    then some (elim (find_body line [] (drop linenum lines) st) [
      | some st' ↦ (st', [])
      | none ↦ (
        st,
        error filename linenum (codes "readability/fn_size") 5
              (codes "Lint failed to find start of function body.")
            ∷ [],
      )
    ])
    else if matches re_function_end line
    then elim (check verbose filename linenum st) [
      | none ↦ none
      | some events ↦ some (end st, events)
    ]
    else if not (matches re_blank line)
    then some (count_line st, [])
    else some (st, [])
