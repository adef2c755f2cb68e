-- ===== src/FileChecks/HeaderGuard.antt =====
-- clint.py, `CheckForHeaderGuard`: the loop finds the first #ifndef and #define and the last
-- #endif, and which files pass.
use dlmalloc.Prelude.{
  ℕ, ◌+◌, ◌≡◌, ◌≢◌, ◌↔◌, refl, sym, ap, ◌∙◌, inl, inr, true, false, String, List, [], ◌∷◌, ◌++◌,
  Option, none, some, arith, ◌==◌, text_eq, option_eq, option_beq_iff, Option-cases, Bool-cases,
  if◌then◌else◌, not, get_or,
}
use dlmalloc.Text.{Text, codes, starts_with, split_space}
use dlmalloc.Report.{Event}
use dlmalloc.Nolint.{parse_nolint_suppressions}
use dlmalloc.FileChecks.{
  directive_arg, or_else, Guard, read_guard, scan_guard, no_guard, endif_line, guard_events,
  guard_error, check_for_header_guard,
}

-- The word behind the first such directive.
unfoldable pub first_directive : String → List Text → Option Text
first_directive name [] = none
first_directive name (line ∷ lines) =
    or_else (directive_arg name (split_space line)) (first_directive name lines)

-- The last line that begins with #endif.
unfoldable pub last_endif : List Text → Option Text
last_endif [] = none
last_endif (line ∷ lines) =
    or_else (last_endif lines) (if starts_with line (codes "#endif") then some line else none)

or_else-none : (a : Option Text) → or_else a none ≡ a
or_else-none none = refl
or_else-none (some a) = refl

or_else_assoc : (a b c : Option Text) → or_else (or_else a b) c ≡ or_else a (or_else b c)
or_else_assoc none b c = refl
or_else_assoc (some a) b c = refl

read_guard-names :
    (linenum : ℕ) (line : Text) (g : Guard)
    → ((read_guard linenum line g).ifndef
        ≡ or_else g.ifndef (directive_arg "#ifndef" (split_space line)))
      × ((read_guard linenum line g).define
          ≡ or_else g.define (directive_arg "#define" (split_space line)))
      × ((read_guard linenum line g).endif
          ≡ or_else (if starts_with line (codes "#endif") then some line else none) g.endif)
unfolding read_guard
read_guard-names linenum line g = ground arith

scan_guard-names :
    (linenum : ℕ) (lines : List Text) (g : Guard)
    → ((scan_guard linenum lines g).ifndef ≡ or_else g.ifndef (first_directive "#ifndef" lines))
      × ((scan_guard linenum lines g).define ≡ or_else g.define (first_directive "#define" lines))
      × ((scan_guard linenum lines g).endif ≡ or_else (last_endif lines) g.endif)
unfolding scan_guard first_directive last_endif
scan_guard-names linenum [] g = ground arith
scan_guard-names linenum (line ∷ lines) g =
    let (i, d, e) = read_guard-names linenum line g in
    let (i', d', e') = scan_guard-names (linenum + 1) lines (read_guard linenum line g) in
    (
      i' ∙ ap (λ t. or_else t (first_directive "#ifndef" lines)) i ∙ or_else_assoc g.ifndef _ _,
      d' ∙ ap (λ t. or_else t (first_directive "#define" lines)) d ∙ or_else_assoc g.define _ _,
      e' ∙ ap (λ t. or_else (last_endif lines) t) e ∙ sym (or_else_assoc (last_endif lines) _ _),
    )

append-cons≢nil : (xs : List Event) (x : Event) → (xs ++ x ∷ []) ≢ []
append-cons≢nil [] x = λ e. ground arith
append-cons≢nil (y ∷ xs) x = λ e. ground arith

guard_events-ends :
    (filename : Text) (lines : List Text) (g : Guard) (cppvar : Text)
    → g.define ≡ some cppvar
    → (g.endif == some (endif_line cppvar)) ≡ false
    → guard_events filename lines g cppvar
      ≡ parse_nolint_suppressions filename (get_or lines g.endif_linenum []) g.endif_linenum
        ++ guard_error filename g.endif_linenum
            (if not (g.endif == some (endif_line (cppvar ++ codes "_"))) then 5 else 0)
            (codes "#endif line should be \"" ++ endif_line cppvar ++ codes "\"")
          ∷ []
unfolding guard_events
guard_events-ends filename lines g cppvar same c =
    let b = (option_beq_iff g.define (some cppvar)).1 same in ground arith

guard_events-quiet :
    (filename : Text) (lines : List Text) (g : Guard) (cppvar : Text)
    → g.define ≡ some cppvar
    → (g.endif == some (endif_line cppvar)) ≡ true
    → guard_events filename lines g cppvar ≡ []
unfolding guard_events
guard_events-quiet filename lines g cppvar same c =
    let b = (option_beq_iff g.define (some cppvar)).1 same in ground arith

guard_events-nil :
    (filename : Text) (lines : List Text) (g : Guard) (cppvar : Text)
    → (guard_events filename lines g cppvar ≡ [])
      ↔ ((g.define ≡ some cppvar) × (g.endif ≡ some (endif_line cppvar)))
unfolding guard_events
guard_events-nil filename lines g cppvar =
    let d = option_beq_iff g.define (some cppvar) in
    let n = option_beq_iff g.define none in
    let e = option_beq_iff g.endif (some (endif_line cppvar)) in
    (
      λ h. elim (Bool-cases (g.define == some cppvar)) [
        | inr b ↦ absurd (ground arith)
        | inl b ↦ elim (Bool-cases (g.endif == some (endif_line cppvar))) [
          | inl c ↦ (d.0 b, e.0 c)
          | inr c ↦
              let same = d.0 b in
              let body = guard_events-ends filename lines g cppvar same c in
              absurd (append-cons≢nil _ _ (sym body ∙ h))
        ]
      ],
      λ h.
          let same = h.0 in
          let last = e.1 h.1 in guard_events-quiet filename lines g cppvar same last,
    )

check-unbound :
    (filename : Text) (lines : List Text)
    → (scan_guard 0 lines no_guard).ifndef ≡ none
    → check_for_header_guard filename lines ≡ none
unfolding check_for_header_guard
check-unbound filename lines e = simp (check_for_header_guard, e)

check-bound :
    (filename : Text) (lines : List Text) (cppvar : Text)
    → (scan_guard 0 lines no_guard).ifndef ≡ some cppvar
    → check_for_header_guard filename lines
      ≡ some (guard_events filename lines (scan_guard 0 lines no_guard) cppvar)
unfolding check_for_header_guard scan_guard
check-bound filename lines cppvar e = ground arith

-- CheckForHeaderGuard raises UnboundLocalError, instead of a report, exactly when the file has no
-- line of two or more words whose first is #ifndef.
pub check_for_header_guard-unbound :
    (filename : Text) (lines : List Text)
    → (check_for_header_guard filename lines ≡ none) ↔ (first_directive "#ifndef" lines ≡ none)
check_for_header_guard-unbound filename lines =
    let (i, _, _) = scan_guard-names 0 lines no_guard in
    elim (Option-cases (scan_guard 0 lines no_guard).ifndef) [
      | inl e ↦ (λ _. sym i ∙ e, λ _. check-unbound filename lines e)
      | inr (cppvar, e) ↦ let b = check-bound filename lines cppvar e in ground arith
    ]

-- CheckForHeaderGuard is content with a file exactly when its first #ifndef and its first #define
-- name the same word and its last #endif line is "#endif  // " and that word.
pub check_for_header_guard_iff :
    (filename : Text) (lines : List Text)
    → (check_for_header_guard filename lines ≡ some []) ↔ (
        (cppvar : Text) × (first_directive "#ifndef" lines ≡ some cppvar)
        × (first_directive "#define" lines ≡ some cppvar)
        × (last_endif lines ≡ some (endif_line cppvar)))
check_for_header_guard_iff filename lines =
    let g = scan_guard 0 lines no_guard in
    let (i, d, e) = scan_guard-names 0 lines no_guard in
    elim (Option-cases g.ifndef) [
      | inl none_here ↦
          let u = check-unbound filename lines none_here in
          (λ h. absurd (ground arith), λ (name, f, d', e'). absurd (ground arith))
      | inr (name, found) ↦
          let b = check-bound filename lines name found in
          let c = guard_events-nil filename lines g name in
          let last : g.endif ≡ last_endif lines = e ∙ or_else-none (last_endif lines) in
          (
            λ h.
                let (defined, ended) = c.0 (ground arith) in
                (name, sym i ∙ found, sym d ∙ defined, sym last ∙ ended),
            λ h.
                let same : name ≡ h.0 = ground arith in
                let quiet = c.1 (ground arith, ground arith) in ground arith,
          )
    ]
