-- ===== src/Unicode.antt =====
-- The character tables of Python's `unicodedata`, which the model does not hold: a parameter for
-- the code points from 128 on. Below 128 the tables are written out.
use dlmalloc.Prelude.{ℕ, ◌+◌, ◌-◌, Bool, ◌&&◌, ◌||◌, ltb, leb, if◌then◌else◌}

pub record Unicode : Type 0 where
  pub wide_lower : ℕ → ℕ
  pub wide_upper : ℕ → ℕ
  pub wide_alnum : ℕ → Bool

-- `c.lower()`, `c.upper()` and `c.isalnum()` of one character
unfoldable pub to_lower : Unicode → ℕ → ℕ
to_lower u c = if leb b'A' c && leb c b'Z' then c + 32 else if ltb c 128 then c else u.wide_lower c

unfoldable pub to_upper : Unicode → ℕ → ℕ
to_upper u c = if leb b'a' c && leb c b'z' then c - 32 else if ltb c 128 then c else u.wide_upper c

unfoldable pub is_alnum : Unicode → ℕ → Bool
is_alnum u c =
    if ltb c 128
    then leb b'0' c && leb c b'9' || leb b'A' c && leb c b'Z' || leb b'a' c && leb c b'z'
    else u.wide_alnum c
