-- ===== src/FileNames.antt =====
-- clint.py: what the checks read off the names of files. The functions of `os.path` and the tree
-- of files are a parameter.
pub mod Info
pub mod Climb
pub mod Module
use dlmalloc.Prelude.{
  ℕ, zero, suc, ◌+◌, ◌-◌, Bool, true, false, not, ◌&&◌, ◌||◌, List, [], ◌∷◌, ◌++◌, Option, none,
  some, ◌==◌, nat_eq, text_eq, ltb, if◌then◌else◌, length, take, drop, get_or, contains,
}
use dlmalloc.Text.{Text, codes, ends_with, replace}

-- `os.path`. `common_prefix p q` is `commonprefix([p, q])`, and `split_path` is `split`.
pub record Paths : Type 0 where
  pub abspath : Text → Text
  pub exists : Text → Bool
  pub dirname : Text → Text
  pub join_path : Text → Text → Text
  pub common_prefix : Text → Text → Text
  pub split_path : Text → Text × Text
  pub splitext : Text → Text × Text
  pub normpath : Text → Text

-- `s[:-n]`
unfoldable pub before_last : ℕ → Text → Text
before_last n s = if n == 0 then [] else take (length s - n) s

-- The loop of `_DropCommonSuffixes`; `none` is the end of the loop.
unfoldable pub drop_suffix : Text → List Text → Option Text
unfolding before_last
drop_suffix filename [] = none
drop_suffix filename (suffix ∷ suffixes) =
    if ends_with filename suffix
      && ltb (length suffix) (length filename)
      && contains (b'-' ∷ b'_' ∷ []) (get_or filename (length filename - (length suffix + 1)) 0)
    then some (before_last (length suffix + 1) filename)
    else drop_suffix filename suffixes

abbrev pub common_suffixes : List Text
common_suffixes =
    codes "test.c"
    ∷ codes "regtest.c"
    ∷ codes "unittest.c"
    ∷ codes "inl.h"
    ∷ codes "impl.h"
    ∷ codes "internal.h"
    ∷ []

-- `_DropCommonSuffixes`
unfoldable pub drop_common_suffixes : Paths → Text → Text
unfolding drop_suffix
drop_common_suffixes os filename = elim (drop_suffix filename common_suffixes) [
  | none ↦ (os.splitext filename).0
  | some stem ↦ stem
]

-- `_IsTestFilename`
unfoldable pub is_test_filename : Text → Bool
unfolding ends_with
is_test_filename filename =
    ends_with filename (codes "_test.c")
    || ends_with filename (codes "_unittest.c")
    || ends_with filename (codes "_regtest.c")

-- `if s.endswith(suffix): s = s[:-len(suffix)]`
unfoldable pub strip_suffix : Text → Text → Text
unfolding before_last
strip_suffix suffix s = if ends_with s suffix then before_last (length suffix) s else s

abbrev pub drop_visibility : Text → Text
drop_visibility s =
    replace (replace s (codes "/public/") (codes "/")) (codes "/internal/") (codes "/")

-- The module that a name ending in .c stands for.
unfoldable pub source_module : Text → Text
unfolding strip_suffix
source_module filename_cc =
    let stem = before_last 2 filename_cc in
    drop_visibility (
      if ends_with stem (codes "_unittest")
      then before_last 9 stem
      else strip_suffix (codes "_test") stem)

-- The module that a name ending in .h stands for.
unfoldable pub header_module : Text → Text
unfolding strip_suffix
header_module filename_h = drop_visibility (strip_suffix (codes "-inl") (before_last 2 filename_h))

-- `FilesBelongToSameModule`
unfoldable pub files_belong_to_same_module : Text → Text → Bool × Text
files_belong_to_same_module filename_cc filename_h =
    let cc = source_module filename_cc in
    let h = header_module filename_h in
    if not (ends_with filename_cc (codes ".c"))
    then (false, [])
    else if not (ends_with filename_h (codes ".h"))
    then (false, [])
    else if ends_with cc h
    then (true, before_last (length h) cc)
    else (false, [])
