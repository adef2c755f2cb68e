-- ===== src/Text.antt =====
-- Python's text methods, as clint.py calls them. A text is the list of its code points.
-- An index is a number, and `none` stands for the -1 that `find` and `rfind` return.
pub mod Split
use Prim.Native.Char.{code}
use mathlib.Core.List.{reverse}
use mathlib.Core.Option
use dlmalloc.Prelude.{
  ℕ, zero, suc, ◌+◌, ◌-◌, String, Bool, true, false, ◌&&◌, ◌||◌, List, [], ◌∷◌, ◌++◌, Option, none,
  some, ◌==◌, nat_eq, leb, if◌then◌else◌, length,
}

abbrev pub Text : Type 0
Text = List ℕ

-- The code points of a literal.
abbrev pub codes : String → Text
codes String.[] = []
codes (String.◌∷◌ c s) = code c ∷ codes s

-- `s.startswith(p)`
unfoldable pub starts_with : Text → Text → Bool
starts_with s [] = true
starts_with [] (c ∷ p) = false
starts_with (x ∷ s) (c ∷ p) = x == c && starts_with s p

-- `s.endswith(p)`
unfoldable pub ends_with : Text → Text → Bool
unfolding starts_with
ends_with s p = starts_with (reverse s) (reverse p)

-- `s.find(p)`
unfoldable pub find : Text → Text → Option ℕ
unfolding starts_with
find [] p = if starts_with [] p then some 0 else none
find (x ∷ s) p = if starts_with (x ∷ s) p then some 0 else Option.map suc (find s p)

-- `p in s`
unfoldable pub occurs : Text → Text → Bool
unfolding find
occurs p s = elim (find s p) [ none ↦ false | some _ ↦ true ]

abbrev or_here : Option ℕ → Bool → Option ℕ
or_here (some i) here = some (suc i)
or_here none true = some 0
or_here none false = none

-- `s.rfind(p)`
unfoldable pub rfind : Text → Text → Option ℕ
unfolding starts_with
rfind [] p = if starts_with [] p then some 0 else none
rfind (x ∷ s) p = or_here (rfind s p) (starts_with (x ∷ s) p)

-- Occurrences that do not overlap; `skip` characters still belong to the last one found.
count_skip : Text → ℕ → Text → ℕ
count_skip p skip [] = 0
count_skip p (suc skip) (x ∷ s) = count_skip p skip s
count_skip p zero (x ∷ s) =
    let hit = starts_with (x ∷ s) p in
    (if hit then 1 else 0) + count_skip p (if hit then length p - 1 else 0) s

-- `s.count(p)`, for `p` not empty
unfoldable pub count : Text → Text → ℕ
unfolding count_skip starts_with
count s p = count_skip p 0 s

replace_skip : Text → Text → ℕ → Text → Text
replace_skip old new skip [] = []
replace_skip old new (suc skip) (x ∷ s) = replace_skip old new skip s
replace_skip old new zero (x ∷ s) =
    let hit = starts_with (x ∷ s) old in
    (if hit then new else x ∷ []) ++ replace_skip old new (if hit then length old - 1 else 0) s

-- `s.replace(old, new)`, for `old` not empty
unfoldable pub replace : Text → Text → Text → Text
unfolding replace_skip starts_with
replace s old new = replace_skip old new 0 s

within : ℕ → ℕ → ℕ → Bool
within lo hi c = leb lo c && leb c hi

-- `unicode.isspace` of one character
unfoldable pub is_space : ℕ → Bool
unfolding within
is_space c =
    within 9 13 c
    || within 28 32 c
    || c == 0x85
    || c == 0xA0
    || c == 0x1680
    || c == 0x180E
    || within 0x2000 0x200A c
    || within 0x2028 0x2029 c
    || c == 0x202F
    || c == 0x205F
    || c == 0x3000

-- `s.lstrip()`
unfoldable pub lstrip : Text → Text
unfolding is_space
lstrip [] = []
lstrip (x ∷ s) = if is_space x then lstrip s else x ∷ s

-- `s.rstrip()`
unfoldable pub rstrip : Text → Text
unfolding lstrip
rstrip s = reverse (lstrip (reverse s))

-- `s.strip()`
unfoldable pub strip : Text → Text
unfolding rstrip
strip s = rstrip (lstrip s)

-- `s.isspace()`: at least one character, and all of them spaces
unfoldable pub all_space : Text → Bool
unfolding is_space
all_space [] = true
all_space (x ∷ s) = is_space x && all_space s

abbrev close_field : Text → List Text → List Text
close_field [] fields = fields
close_field (c ∷ cs) fields = (c ∷ cs) ∷ fields

-- A field in progress, then the fields behind it.
fields_from : Text → Text × List Text
fields_from [] = ([], [])
fields_from (x ∷ s) =
    let (f, fs) = fields_from s in if is_space x then ([], close_field f fs) else (x ∷ f, fs)

-- `s.split()`: runs of other characters between runs of spaces
unfoldable pub split_space : Text → List Text
unfolding fields_from is_space
split_space s = let (f, fs) = fields_from s in close_field f fs

-- `s.split(c)`, for one character
unfoldable split_parts : ℕ → Text → Text × List Text
split_parts c [] = ([], [])
split_parts c (x ∷ s) =
    let (f, fs) = split_parts c s in if x == c then ([], f ∷ fs) else (x ∷ f, fs)

unfoldable pub split : ℕ → Text → List Text
unfolding split_parts
split c s = let (f, fs) = split_parts c s in f ∷ fs

-- `c.join(parts)`, for one character
unfoldable pub join : ℕ → List Text → Text
join c [] = []
join c (f ∷ []) = f
join c (f ∷ g ∷ fs) = f ++ c ∷ join c (g ∷ fs)
