-- ===== src/FileNames/Info.antt =====
-- clint.py, `class FileInfo`. A loop that looks for the root of a checkout has fuel, and `none`
-- is a loop that has not ended.
use dlmalloc.Prelude.{
  ℕ, zero, suc, ◌+◌, String, Bool, not, ◌&&◌, ◌||◌, [], ◌∷◌, ◌++◌, Option, none, some, ◌==◌,
  text_eq, if◌then◌else◌, length, drop, contains,
}
use dlmalloc.Text.{Text, codes, replace}
use dlmalloc.FileNames.{Paths}

-- `FullName`
unfoldable pub full_name : Paths → Text → Text
unfolding replace
full_name os filename = replace (os.abspath filename) (codes "\\") (codes "/")

abbrev pub has_entry : Paths → String → Text → Bool
has_entry os name dir = os.exists (os.join_path dir (codes name))

-- The loop `while os.path.exists(os.path.join(one_up_dir, ".svn"))`: the value of `root_dir`.
unfoldable pub climb_svn : ℕ → Paths → Text → Text → Option Text
climb_svn zero os root_dir one_up_dir = none
climb_svn (suc fuel) os root_dir one_up_dir =
    let later = climb_svn fuel os (os.dirname root_dir) (os.dirname one_up_dir) in
    if has_entry os ".svn" one_up_dir then later else some root_dir

abbrev pub is_checkout : Paths → Text → Bool
is_checkout os dir = has_entry os ".git" dir || has_entry os ".hg" dir || has_entry os ".svn" dir

-- The loop that ends at a checkout or where `dirname` stays.
unfoldable pub climb : ℕ → Paths → Text → Option Text
climb zero os root_dir = none
climb (suc fuel) os root_dir =
    let later = climb fuel os (os.dirname root_dir) in
    if not (root_dir == os.dirname root_dir) && not (is_checkout os root_dir)
    then later
    else some root_dir

-- `fullname[len(prefix) + 1:]`, for the common prefix of the two directories
abbrev pub below : Paths → Text → Text → Text → Text
below os root_dir project_dir fullname =
    drop (length (os.common_prefix root_dir project_dir) + 1) fullname

-- `RepositoryName`
unfoldable pub repository_name : ℕ → Paths → Text → Option Text
unfolding full_name climb_svn climb
repository_name fuel os filename =
    let fullname = full_name os filename in
    let project_dir = os.dirname fullname in
    if not (os.exists fullname)
    then some fullname
    else if has_entry os ".svn" project_dir
    then elim (climb_svn fuel os project_dir (os.dirname project_dir)) [
      | none ↦ none
      | some root_dir ↦ some (below os root_dir project_dir fullname)
    ]
    else elim (climb fuel os project_dir) [
      | none ↦ none
      | some root_dir ↦
          some
            (if is_checkout os root_dir then below os root_dir project_dir fullname else fullname)
    ]

-- `Split`
unfoldable pub split_name : ℕ → Paths → Text → Option (Text × Text × Text)
unfolding repository_name
split_name fuel os filename = elim (repository_name fuel os filename) [
  | none ↦ none
  | some googlename ↦
      let (project, rest) = os.split_path googlename in
      let (base, extension) = os.splitext rest in some (project, base, extension)
]

-- `BaseName`
unfoldable pub base_name : ℕ → Paths → Text → Option Text
base_name fuel os filename = elim (split_name fuel os filename) [
  | none ↦ none
  | some (project, base, extension) ↦ some base
]

-- `Extension`
unfoldable pub extension : ℕ → Paths → Text → Option Text
extension fuel os filename = elim (split_name fuel os filename) [
  | none ↦ none
  | some (project, base, ext) ↦ some ext
]

-- `NoExtension`
unfoldable pub no_extension : ℕ → Paths → Text → Option Text
no_extension fuel os filename = elim (split_name fuel os filename) [
  | none ↦ none
  | some (project, base, ext) ↦ some (project ++ b'/' ∷ base)
]

-- `IsSource`
unfoldable pub is_source : ℕ → Paths → Text → Option Bool
unfolding extension
is_source fuel os filename = elim (extension fuel os filename) [
  | none ↦ none
  | some ext ↦
      some (contains (codes "c" ∷ codes "cc" ∷ codes "cpp" ∷ codes "cxx" ∷ []) (drop 1 ext))
]
