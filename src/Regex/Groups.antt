-- ===== src/Regex/Groups.antt =====
-- The groups of a match or a search.
use dlmalloc.Prelude.{ℕ, zero, suc, ◌+◌, true, false, List, [], ◌∷◌, Option, none, some, length}
use dlmalloc.Text.{Text}
use dlmalloc.Regex.{Regex, Cursor, run, accept, moved, match, search_in, group_of}

abbrev pub Groups : Type 0
Groups = List (ℕ × Text)

unfoldable pub match_groups : Regex → Text → Option Groups
unfolding match
match_groups p s = elim (match p s) [ none ↦ none | some t ↦ some t.groups ]

unfoldable pub search_groups : Regex → Text → Option Groups
unfolding search_in
search_groups p s = elim (search_in p s) [ none ↦ none | some (a, b) ↦ some b.groups ]

-- The text of a group; the empty text for a group that took no part.
abbrev pub group_text : ℕ → Groups → Text
group_text n groups = elim (group_of n groups) [ none ↦ [] | some t ↦ t ]

-- `len(re.findall(p, s))`, from a cursor on, for a pattern whose matches are never empty; the fuel
-- is the number of characters left.
count_from : ℕ → Regex → Text → Text → ℕ
count_from zero p past rest = 0
count_from (suc fuel) p past [] = 0
count_from (suc fuel) p past (c ∷ r) =
    let s : Cursor = record { past = past; rest = c ∷ r; groups = [] } in
    elim (run p s accept) [
      | none ↦ count_from fuel p (c ∷ past) r
      | some t ↦ elim (moved s t) [
        | true ↦ 1 + count_from fuel p t.past t.rest
        | false ↦ count_from fuel p (c ∷ past) r
      ]
    ]

unfoldable pub count_matches : Regex → Text → ℕ
unfolding count_from run
count_matches p s = count_from (length s) p [] s

abbrev add_to_first : ℕ → List Text → List Text
add_to_first c [] = (c ∷ []) ∷ []
add_to_first c (f ∷ fs) = (c ∷ f) ∷ fs

-- `re.split(p, s)`, for a pattern with no groups.
split_from : ℕ → Regex → Text → Text → List Text
split_from zero p past rest = rest ∷ []
split_from (suc fuel) p past [] = [] ∷ []
split_from (suc fuel) p past (c ∷ r) =
    let s : Cursor = record { past = past; rest = c ∷ r; groups = [] } in
    elim (run p s accept) [
      | none ↦ add_to_first c (split_from fuel p (c ∷ past) r)
      | some t ↦ elim (moved s t) [
        | true ↦ [] ∷ split_from fuel p t.past t.rest
        | false ↦ add_to_first c (split_from fuel p (c ∷ past) r)
      ]
    ]

unfoldable pub split_matches : Regex → Text → List Text
unfolding split_from run
split_matches p s = split_from (length s) p [] s
