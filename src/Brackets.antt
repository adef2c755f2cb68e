-- ===== src/Brackets.antt =====
-- clint.py: `_GetTextInside` and `CloseExpression`, which look for the end of a bracket.
pub mod Inside
pub mod Close
use dlmalloc.Prelude.{
  ℕ, zero, suc, ◌+◌, ◌-◌, Bool, true, false, not, ◌||◌, List, [], ◌∷◌, ◌++◌, Option, none, some, ℤ,
  pos, negsuc, ◌==◌, nat_eq, ltb, leb, if◌then◌else◌, length, take, drop, get_or, get_elem?,
}
use dlmalloc.Text.{Text, codes, count, rfind}
use dlmalloc.Regex.{Regex, search_in}

-- `matching_punctuation`
unfoldable pub matching_punctuation : ℕ → Option ℕ
matching_punctuation c =
    if c == b'('
    then some b')'
    else if c == b'{'
    then some b'}'
    else if c == b'['
    then some b']'
    else none

-- `closing_punctuation`
unfoldable pub is_closing : ℕ → Bool
is_closing c = c == b')' || c == b'}' || c == b']'

-- One round of the loop: the new stack, or none where the function returns None.
unfoldable pub next_stack : ℕ → List ℕ → ℕ → Option (List ℕ)
unfolding matching_punctuation is_closing
next_stack top stack c =
    if c == top then some stack else if is_closing c then none else elim (matching_punctuation c) [
      | none ↦ some (top ∷ stack)
      | some close ↦ some (close ∷ top ∷ stack)
    ]

-- The loop from a position on: the position where the stack is empty, or none if it never is.
unfoldable pub close_all : List ℕ → Text → ℕ → Option ℕ
close_all [] rest position = some position
close_all (top ∷ stack) [] position = none
close_all (top ∷ stack) (c ∷ rest) position = elim (next_stack top stack c) [
  | none ↦ none
  | some stack' ↦ close_all stack' rest (position + 1)
]

-- The text from `start_position` on, behind the opening character `opening`. The outer `none` is
-- a failed assertion, the inner one is None.
unfoldable pub text_inside : Text → ℕ → ℕ → Option (Option Text)
text_inside text start_position opening = elim (matching_punctuation opening) [
  | none ↦ none
  | some close ↦ elim (close_all (close ∷ []) (drop start_position text) start_position) [
    | none ↦ some none
    | some position ↦ some (some (take (position - 1 - start_position) (drop start_position text)))
  ]
]

-- `_GetTextInside`, for a pattern with no `^` or `$`, which re.M would change. The last character
-- of the match is the first of `b.past`.
unfoldable pub get_text_inside : Text → Regex → Option (Option Text)
unfolding text_inside
get_text_inside text start_pattern = elim (search_in start_pattern text) [
  | none ↦ some none
  | some (a, b) ↦ elim b.past [
    | [] ↦ none
    | opening ∷ past ↦ text_inside text (length b.past) opening
  ]
]

-- Lines are counted from `linenum`; `opened` and `closed` are the brackets seen so far, whose
-- difference is `num_open`. `none` is the IndexError beyond the last line.
unfoldable pub seek_even : Text → Text → List Text → Text → ℕ → ℕ → ℕ → Option (Text × ℕ × ℕ × ℕ)
seek_even startchar endchar [] line linenum opened closed =
    if ltb closed opened then none else some (line, linenum, opened, closed)
seek_even startchar endchar (next ∷ lines) line linenum opened closed =
    let later =
      seek_even startchar endchar lines next (linenum + 1) (opened + count next startchar)
        (closed + count next endchar) in
    if ltb closed opened then later else some (line, linenum, opened, closed)

-- The end of a slice `[0:endpos]`
abbrev pub slice_end : ℕ → ℤ → ℕ
slice_end len (pos n) = n
slice_end len (negsuc n) = len - suc n

abbrev pub found_at : Option ℕ → ℤ
found_at none = negsuc 0
found_at (some i) = pos i

-- `endpos = line.rfind(')', 0, endpos)`, so many times
unfoldable pub chop : ℕ → Text → ℤ → ℤ
chop zero line endpos = endpos
chop (suc rounds) line endpos =
    chop rounds line (found_at (rfind (take (slice_end (length line) endpos) line) (codes ")")))

abbrev pub add_one : ℤ → ℤ
add_one (pos n) = pos (n + 1)
add_one (negsuc zero) = pos 0
add_one (negsuc (suc n)) = negsuc n

-- `CloseExpression` on `clean_lines.elided`; `none` is IndexError. `matching_punctuation` is also
-- the table of its three tests on `startchar`.
unfoldable pub close_expression : List Text → ℕ → ℕ → Option (Text × ℕ × ℤ)
unfolding seek_even chop
close_expression elided linenum p = elim (get_elem? elided linenum) [
  | none ↦ none
  | some line ↦ elim (get_elem? line p) [
    | none ↦ none
    | some startchar ↦ elim (matching_punctuation startchar) [
      | none ↦ some (line, length elided, negsuc 0)
      | some endchar ↦
          elim (seek_even (startchar ∷ []) (endchar ∷ []) (drop (linenum + 1) elided) line linenum
            (count line (startchar ∷ [])) (count line (endchar ∷ []))) [
              | none ↦ none
              | some (last, linenum', opened, closed) ↦
                  some
                    (last, linenum', add_one (chop (opened + 1 - closed) last (pos (length last))))
            ]
    ]
  ]
]
