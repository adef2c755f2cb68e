-- ===== src/Regex/Meaning.antt =====
-- What a pattern means, apart from the order in which the matcher tries things: the pairs of
-- cursors between which it matches.
use dlmalloc.Prelude.{true, ◌≡◌, ◌⊎◌, some}
use dlmalloc.Regex.{
  Regex, empty, char, ◌⨾◌, ◌⊕◌, star, lazy_star, group, line_start, line_end, word_edge, if_ahead,
  unless_ahead, Cursor, read_char, close_group, moved, is_nil, at_line_end, at_word_edge,
}

-- A chain of steps, each of which reads something.
pub data Rounds (R : Cursor → Cursor → Type 0) : Cursor → Cursor → Type 0 where
  done : {s t : Cursor} → s ≡ t → Rounds R s t
  round : {s u t : Cursor} → R s u → moved s u ≡ true → Rounds R u t → Rounds R s t

abbrev pub Means : Regex → Cursor → Cursor → Type 0
Means empty s t = s ≡ t
Means (char c) s t = read_char c s ≡ some t
Means (p ⨾ q) s t = (u : Cursor) × Means p s u × Means q u t
Means (p ⊕ q) s t = Means p s t ⊎ Means q s t
Means (star p) s t = Rounds (Means p) s t
Means (lazy_star p) s t = Rounds (Means p) s t
Means (group n p) s t = (u : Cursor) × Means p s u × (close_group n s u ≡ t)
Means line_start s t = (is_nil s.past ≡ true) × (s ≡ t)
Means line_end s t = (at_line_end s.rest ≡ true) × (s ≡ t)
Means word_edge s t = (at_word_edge s ≡ true) × (s ≡ t)
Means (if_ahead p) s t = ((u : Cursor) × Means p s u) × (s ≡ t)
Means (unless_ahead p) s t = ¬ ((u : Cursor) × Means p s u) × (s ≡ t)
