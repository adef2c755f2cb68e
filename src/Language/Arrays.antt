-- ===== src/Language/Arrays.antt =====
-- clint.py, `CheckLanguage`: arrays whose length varies.
use dlmalloc.Prelude.{
  ℕ, Bool, true, false, not, ◌&&◌, ◌||◌, List, [], ◌∷◌, ◌++◌, none, some, ◌==◌, nat_eq, text_eq,
  option_eq, if◌then◌else◌,
}
use dlmalloc.Text.{Text, codes, occurs, starts_with}
use dlmalloc.Regex.{Regex, ◌⨾◌, ◌⊕◌, star, group, matches, found}
use dlmalloc.Regex.Groups.{match_groups, group_text, split_matches}
use dlmalloc.Regex.Patterns.{lit, one_of, singles, words, digits, space, dot, plus, opt}
use dlmalloc.Report.{Event, error, when}
use mathlib.Core.List.{reverse}

-- \s*(.+::)?(\w+) [a-z]\w*\[(.+)];
abbrev pub re_array : Regex
re_array =
    star space
    ⨾ opt (group 1 (plus dot ⨾ lit "::"))
    ⨾ group 2 (plus (one_of words))
    ⨾ lit " "
    ⨾ one_of ((b'a', b'z') ∷ [])
    ⨾ star (one_of words)
    ⨾ lit "["
    ⨾ group 3 (plus dot)
    ⨾ lit "];"

-- \s|\+|\-|\*|\/|<<|>>]
abbrev pub re_size_separator : Regex
re_size_separator = (space ⊕ lit "+" ⊕ lit "-" ⊕ lit "*" ⊕ lit "/" ⊕ lit "<<" ⊕ lit ">>]")

-- sizeof\(.+\)
abbrev pub re_sizeof : Regex
re_sizeof = lit "sizeof(" ⨾ plus dot ⨾ lit ")"

-- arraysize\(\w+\)
abbrev pub re_arraysize : Regex
re_arraysize = lit "arraysize(" ⨾ plus (one_of words) ⨾ lit ")"

-- \d+
abbrev pub re_decimal : Regex
re_decimal = plus (one_of digits)

-- 0[xX][0-9a-fA-F]+
abbrev pub re_hexadecimal : Regex
re_hexadecimal =
    lit "0"
    ⨾ one_of (singles "xX")
    ⨾ plus (one_of (((b'0', b'9') ∷ []) ++ ((b'a', b'f') ∷ []) ++ ((b'A', b'F') ∷ [])))

-- k[A-Z0-9]\w*
abbrev pub re_constant_name : Regex
re_constant_name =
    lit "k" ⨾ one_of (((b'A', b'Z') ∷ []) ++ ((b'0', b'9') ∷ [])) ⨾ star (one_of words)

-- (.+::)?k[A-Z0-9]\w*
abbrev pub re_scoped_constant : Regex
re_scoped_constant =
    opt (group 1 (plus dot ⨾ lit "::"))
    ⨾ lit "k"
    ⨾ one_of (((b'A', b'Z') ∷ []) ++ ((b'0', b'9') ∷ []))
    ⨾ star (one_of words)

-- (.+::)?[A-Z][A-Z0-9_]*
abbrev pub re_scoped_macro : Regex
re_scoped_macro =
    opt (group 1 (plus dot ⨾ lit "::"))
    ⨾ one_of ((b'A', b'Z') ∷ [])
    ⨾ star (one_of (((b'A', b'Z') ∷ []) ++ ((b'0', b'9') ∷ []) ++ singles "_"))

-- `tok.lstrip(c)` and `tok.rstrip(c)`
unfoldable pub strip_left : ℕ → Text → Text
strip_left c [] = []
strip_left c (x ∷ s) = if x == c then strip_left c s else x ∷ s

unfoldable pub strip_right : ℕ → Text → Text
strip_right c s = reverse (strip_left c (reverse s))

-- What a part of an array's size is.
pub data Token : Type 0 where
  constant sizeof_expression variable : Token

unfoldable pub is_constant : Text → Bool
is_constant tok =
    tok == []
    || matches re_decimal tok
    || matches re_hexadecimal tok
    || matches re_constant_name tok
    || matches re_scoped_constant tok
    || matches re_scoped_macro tok

unfoldable pub classify_token : Text → Token
classify_token tok =
    let bare = strip_right b')' (strip_left b'(' tok) in
    if found re_sizeof tok || found re_arraysize tok
    then constant
    else if is_constant bare
    then constant
    else if starts_with bare (codes "sizeof")
    then sizeof_expression
    else variable

-- The loop over the tokens: whether all are constants. The token behind `sizeof` is skipped.
unfoldable pub all_constant : Bool → List Text → Bool
all_constant skip_next [] = true
all_constant true (tok ∷ tokens) = all_constant false tokens
all_constant false (tok ∷ tokens) = elim (classify_token tok) [
  | constant ↦ all_constant false tokens
  | sizeof_expression ↦ all_constant true tokens
  | variable ↦ false
]

unfoldable pub check_arrays : Text → ℕ → Text → List Event
check_arrays filename linenum line = elim (match_groups re_array line) [
  | none ↦ []
  | some groups ↦
      let type_name = group_text 2 groups in
      when
        (not (type_name == codes "return")
          && not (type_name == codes "delete")
          && not (occurs (codes "]") (group_text 3 groups))
          && not (all_constant false (split_matches re_size_separator (group_text 3 groups))))
        (error filename linenum (codes "runtime/arrays") 1 (
            codes
              "Do not use variable-length arrays.  Use an appropriately named ('k' followed by CamelCase) compile-time constant for the size.")
          ∷ [])
]
