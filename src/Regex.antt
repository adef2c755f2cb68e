-- ===== src/Regex.antt =====
-- The part of Python's `re` that clint.py uses, on texts with no flag: a backtracking matcher
-- that tries alternatives from left to right and repetitions from long to short (or short to
-- long, if lazy). The models of the checks call it where the code calls `Match` and `Search` or a
-- compiled pattern; these two functions themselves, with their cache, are in Regex/Cache.
pub mod Meaning
pub mod Correct
pub mod Leftmost
pub mod Scan
pub mod Patterns
pub mod Groups
pub mod Cache
use dlmalloc.Prelude.{
  ℕ, zero, suc, ◌+◌, ◌-◌, Bool, true, false, not, ◌&&◌, ◌||◌, List, [], ◌∷◌, ◌++◌, Option, none,
  some, ◌==◌, nat_eq, leb, ltb, if◌then◌else◌, length, take, drop,
}
use dlmalloc.Text.{Text}

-- A set of characters: ranges, or all characters that lie in none of them.
pub record Class : Type 0 where
  pub negated : Bool
  pub ranges : List (ℕ × ℕ)

pub data Regex : Type 0 where
  empty : Regex
  char : Class → Regex
  ◌⨾◌ ◌⊕◌ : Regex → Regex → Regex
  star lazy_star : Regex → Regex
  group : ℕ → Regex → Regex
  line_start line_end word_edge : Regex
  if_ahead unless_ahead : Regex → Regex

infixr 61 ◌⨾◌
infixr 60 ◌⊕◌
-- A place in a text: what was read, the last character first, what is still to read, and the
-- groups that were closed, the last one first.
pub record Cursor : Type 0 where
  pub past : Text
  pub rest : Text
  pub groups : List (ℕ × Text)

unfoldable pub in_ranges : List (ℕ × ℕ) → ℕ → Bool
in_ranges [] c = false
in_ranges ((lo, hi) ∷ rs) c = leb lo c && leb c hi || in_ranges rs c

unfoldable pub in_class : Class → ℕ → Bool
unfolding in_ranges
in_class k c = if k.negated then not (in_ranges k.ranges c) else in_ranges k.ranges c

-- `\w`
abbrev pub word : Class
word = record {
  negated = false;
  ranges = (b'0', b'9') ∷ (b'A', b'Z') ∷ (b'_', b'_') ∷ (b'a', b'z') ∷ [];
}

abbrev pub first_is_word : Text → Bool
first_is_word [] = false
first_is_word (c ∷ s) = in_class word c

abbrev differ : Bool → Bool → Bool
differ true b = not b
differ false b = b

-- `\b`
unfoldable pub at_word_edge : Cursor → Bool
unfolding in_class
at_word_edge s = differ (first_is_word s.past) (first_is_word s.rest)

abbrev pub is_nil {ℓ} : {A : Type ℓ} → List A → Bool
is_nil [] = true
is_nil (x ∷ xs) = false

-- `$` with no flag: at the end, or before a newline that is last
unfoldable pub at_line_end : Text → Bool
at_line_end [] = true
at_line_end (c ∷ s) = c == b'\n' && is_nil s

unfoldable pub read_char : Class → Cursor → Option Cursor
unfolding in_class
read_char k s = elim s.rest [
  | [] ↦ none
  | c ∷ r ↦ if in_class k c then some (record s { past = c ∷ s.past; rest = r }) else none
]

-- Group `n` was opened at `s` and is closed at `t`.
abbrev pub close_group : ℕ → Cursor → Cursor → Cursor
close_group n s t = record t {
  groups = (n, take (length s.rest - length t.rest) s.rest) ∷ t.groups;
}

-- What follows a match; `none` sends the matcher back.
abbrev pub Then : Type 0
Then = Cursor → Option Cursor

abbrev pub accept : Then
accept = some

abbrev pub moved : Cursor → Cursor → Bool
moved s t = ltb (length t.rest) (length s.rest)

-- A round that reads nothing is not taken.
abbrev pub onward : Cursor → Then → Then
onward s again t = elim (moved s t) [ true ↦ again t | false ↦ none ]

-- Rounds of `body`, each of which reads something; as many as there are characters left.
repeat : ℕ → (Cursor → Then → Option Cursor) → Cursor → Then → Option Cursor
repeat zero body s k = k s
repeat (suc n) body s k = elim (body s (onward s (λ t. repeat n body t k))) [
  | some t ↦ some t
  | none ↦ k s
]

repeat_lazy : ℕ → (Cursor → Then → Option Cursor) → Cursor → Then → Option Cursor
repeat_lazy zero body s k = k s
repeat_lazy (suc n) body s k = elim (k s) [
  | some t ↦ some t
  | none ↦ body s (onward s (λ t. repeat_lazy n body t k))
]

unfoldable pub run : Regex → Cursor → Then → Option Cursor
unfolding repeat repeat_lazy read_char at_line_end at_word_edge
run empty s k = k s
run (char c) s k = elim (read_char c s) [ none ↦ none | some t ↦ k t ]
run (p ⨾ q) s k = run p s (λ t. run q t k)
run (p ⊕ q) s k = elim (run p s k) [ some t ↦ some t | none ↦ run q s k ]
run (star p) s k = repeat (length s.rest) (run p) s k
run (lazy_star p) s k = repeat_lazy (length s.rest) (run p) s k
run (group n p) s k = run p s (λ t. k (close_group n s t))
run line_start s k = if is_nil s.past then k s else none
run line_end s k = if at_line_end s.rest then k s else none
run word_edge s k = if at_word_edge s then k s else none
run (if_ahead p) s k = elim (run p s accept) [ none ↦ none | some t ↦ k s ]
run (unless_ahead p) s k = elim (run p s accept) [ none ↦ k s | some t ↦ none ]

abbrev pub at_start : Text → Cursor
at_start s = record { past = []; rest = s; groups = [] }

-- `match` of a pattern: the cursor behind the match
unfoldable pub match : Regex → Text → Option Cursor
unfolding run
match p s = run p (at_start s) accept

-- A match that starts here or further on, with the place where it starts.
unfoldable pub search_from : Regex → Text → Text → Option (Cursor × Cursor)
search_from p past [] =
    let s : Cursor = record { past = past; rest = []; groups = [] } in
    elim (run p s accept) [ some t ↦ some (s, t) | none ↦ none ]
search_from p past (c ∷ r) =
    let s : Cursor = record { past = past; rest = c ∷ r; groups = [] } in
    let later = search_from p (c ∷ past) r in
    elim (run p s accept) [ some t ↦ some (s, t) | none ↦ later ]

-- `search` of a pattern: the cursors at the start and the end of the first match
unfoldable pub search_in : Regex → Text → Option (Cursor × Cursor)
unfolding search_from run
search_in p s = search_from p [] s

-- Whether there is a match.
unfoldable pub matches : Regex → Text → Bool
unfolding match
matches p s = elim (match p s) [ none ↦ false | some _ ↦ true ]

unfoldable pub found : Regex → Text → Bool
unfolding search_in
found p s = elim (search_in p s) [ none ↦ false | some _ ↦ true ]

-- `match.group(n)`; `none` is Python's None
abbrev pub group_of : ℕ → List (ℕ × Text) → Option Text
group_of n [] = none
group_of n ((m, t) ∷ gs) = if n == m then some t else group_of n gs

-- `pattern.sub(new, s)`, for a pattern whose matches are never empty, from a cursor on; the fuel
-- is the number of characters left.
sub_from : ℕ → Regex → Text → Text → Text → Text
sub_from zero p new past rest = rest
sub_from (suc fuel) p new past [] = []
sub_from (suc fuel) p new past (c ∷ r) =
    let s : Cursor = record { past = past; rest = c ∷ r; groups = [] } in
    elim (run p s accept) [
      | none ↦ c ∷ sub_from fuel p new (c ∷ past) r
      | some t ↦ elim (moved s t) [
        | true ↦ new ++ sub_from fuel p new t.past t.rest
        | false ↦ c ∷ sub_from fuel p new (c ∷ past) r
      ]
    ]

unfoldable pub sub : Regex → Text → Text → Text
unfolding sub_from run
sub p new s = sub_from (length s) p new [] s
