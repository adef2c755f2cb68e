-- ===== src/FileNames/Climb.antt =====
-- clint.py, `RepositoryName`: when its loops end.
use dlmalloc.Prelude.{
  ℕ, zero, suc, ◌<◌, ◌≤◌, ◌≡◌, refl, sym, ap, ◌⊎◌, inl, inr, ◌==◌, text_eq, list_beq_iff, true,
  false, none, some, [], ◌++◌, ◌+◌, length, take, drop, take-append-drop, arith, Bool-cases,
}
use dlmalloc.Text.{Text}
use dlmalloc.FileNames.{Paths}
use dlmalloc.FileNames.Info.{full_name, has_entry, climb_svn, is_checkout, climb, repository_name}

-- `dirname` keeps a path or makes it shorter.
abbrev pub Shortens : Paths → Type 0
Shortens os = (dir : Text) → (os.dirname dir ≡ dir) ⊎ (length (os.dirname dir) < length dir)

climb-Returns :
    (fuel : ℕ) (os : Paths) (dir : Text)
    → Shortens os
    → length dir < fuel
    → (root : Text) × (climb fuel os dir ≡ some root)
unfolding climb
climb-Returns zero os dir s l = absurd (omega arith)
climb-Returns (suc fuel) os dir s l = elim (Bool-cases (dir == os.dirname dir)) [
  | inl e ↦ (dir, ground arith)
  | inr e ↦ elim (Bool-cases (is_checkout os dir)) [
    | inl c ↦ (dir, ground arith)
    | inr c ↦ elim (s dir) [
      | inl stays ↦ (dir, let q = (list_beq_iff dir (os.dirname dir)).1 (sym stays) in ground arith)
      | inr shorter ↦
          let (root, r) = climb-Returns fuel os (os.dirname dir) s (omega arith) in
          (root, ground arith)
    ]
  ]
]

climb_svn-Returns :
    (fuel : ℕ) (os : Paths) (root_dir dir : Text)
    → Shortens os
    → ((top : Text) → os.dirname top ≡ top → has_entry os ".svn" top ≡ false)
    → length dir < fuel
    → (root : Text) × (climb_svn fuel os root_dir dir ≡ some root)
unfolding climb_svn
climb_svn-Returns zero os root_dir dir s t l = absurd (omega arith)
climb_svn-Returns (suc fuel) os root_dir dir s t l = elim (s dir) [
  | inl stays ↦ (root_dir, let q = t dir stays in ground arith)
  | inr shorter ↦ elim (Bool-cases (has_entry os ".svn" dir)) [
    | inl e ↦
        let (root, r) =
          climb_svn-Returns fuel os (os.dirname root_dir) (os.dirname dir) s t (omega arith) in
        (root, ground arith)
    | inr e ↦ (root_dir, ground arith)
  ]
]

dirname-length : (os : Paths) (dir : Text) → Shortens os → length (os.dirname dir) ≤ length dir
dirname-length os dir s = elim (s dir) [
  | inl stays ↦ omega (arith, ap length stays)
  | inr l ↦ omega arith
]

-- If `dirname` keeps a path or makes it shorter, and no directory that is its own `dirname` has an
-- entry .svn, RepositoryName ends, with more fuel than the full name has characters; its result is
-- the full name or an end of it.
pub repository_name-Returns :
    (fuel : ℕ) (os : Paths) (filename : Text)
    → Shortens os
    → ((top : Text) → os.dirname top ≡ top → has_entry os ".svn" top ≡ false)
    → length (full_name os filename) < fuel
    → (start : Text) × (name : Text) × (repository_name fuel os filename ≡ some name)
      × (full_name os filename ≡ start ++ name)
unfolding repository_name
repository_name-Returns fuel os filename s t l =
    let full = full_name os filename in
    let dir = os.dirname full in
    let shorter = dirname-length os full s in
    let shorter' = dirname-length os dir s in
    let cut : Text → ℕ = λ root. length (os.common_prefix root dir) + 1 in
    elim (Bool-cases (os.exists full)) [
      | inr e ↦ ([], full, ground arith, refl)
      | inl e ↦ elim (Bool-cases (has_entry os ".svn" dir)) [
        | inl svn ↦
            let (root, r) = climb_svn-Returns fuel os dir (os.dirname dir) s t (omega arith) in
            (
              take (cut root) full,
              drop (cut root) full,
              ground arith,
              sym (take-append-drop (cut root) full),
            )
        | inr none_here ↦
            let (root, r) = climb-Returns fuel os dir s (omega arith) in
            elim (Bool-cases (is_checkout os root)) [
              | inl found ↦ (
                take (cut root) full,
                drop (cut root) full,
                ground arith,
                sym (take-append-drop (cut root) full),
              )
              | inr nowhere ↦ ([], full, ground arith, refl)
            ]
      ]
    ]

climb_svn-never :
    (fuel : ℕ) (os : Paths) (root_dir top : Text)
    → os.dirname top ≡ top
    → has_entry os ".svn" top ≡ true
    → climb_svn fuel os root_dir top ≡ none
unfolding climb_svn
climb_svn-never zero os root_dir top stays e = refl
climb_svn-never (suc fuel) os root_dir top stays e =
    rw (e, stays) (climb_svn-never fuel os (os.dirname root_dir) top stays e)

-- The loop for Subversion looks for .svn alone: for a file that exists in a directory with an
-- entry .svn, if the directory above is its own `dirname` and has one too, RepositoryName never
-- ends.
pub repository_name-never :
    (fuel : ℕ) (os : Paths) (filename : Text)
    → os.exists (full_name os filename) ≡ true
    → has_entry os ".svn" (os.dirname (full_name os filename)) ≡ true
    → os.dirname (os.dirname (os.dirname (full_name os filename)))
      ≡ os.dirname (os.dirname (full_name os filename))
    → has_entry os ".svn" (os.dirname (os.dirname (full_name os filename))) ≡ true
    → repository_name fuel os filename ≡ none
unfolding repository_name
repository_name-never fuel os filename e svn stays up =
    let dir = os.dirname (full_name os filename) in
    let r = climb_svn-never fuel os dir (os.dirname dir) stays up in ground arith
