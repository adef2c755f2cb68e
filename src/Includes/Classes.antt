-- ===== src/Includes/Classes.antt =====
-- clint.py: what CheckIncludeLine and UpdateIncludeState do to the include state.
use dlmalloc.Prelude.{
  ℕ, ◌+◌, ◌≡◌, ◌↔◌, refl, sym, ap, ◌∙◌, ◌⊎◌, inl, inr, Bool, true, List, [], ◌∷◌, ◌++◌, none, some,
  arith, text_eq, Option-cases, Bool-cases, list_beq_iff, ◌==◌,
}
use dlmalloc.Prelude.Dict.{lookup, insert, lookup-insert, has_key, has_key-insert}
use dlmalloc.Text.{Text, codes}
use dlmalloc.Report.{show}
use dlmalloc.Cleanse.{cleanse_comments}
use dlmalloc.IncludeState.{IncludeState}
use dlmalloc.Includes.{include_of, add_header, add_headers, update_include_state}

-- Some line of a header includes `k`.
pub data Listed (k : Text) : List Text → Type 0 where
  here :
      (line : Text) (lines : List Text) (is_system : Bool)
      → include_of (cleanse_comments line) ≡ some (k, is_system)
      → Listed k (line ∷ lines)
  later : (line : Text) (lines : List Text) → Listed k lines → Listed k (line ∷ lines)

add_header-plain :
    (filename : Text) (linenum : ℕ) (line : Text) (st : IncludeState)
    → include_of (cleanse_comments line) ≡ none
    → add_header filename linenum line st ≡ st
unfolding add_header
add_header-plain filename linenum line st e = rw (add_header, e) refl

add_header-old :
    (filename : Text) (linenum : ℕ) (line : Text) (st : IncludeState) (include place : Text)
    (is_system : Bool)
    → include_of (cleanse_comments line) ≡ some (include, is_system)
    → lookup include st.includes ≡ some place
    → add_header filename linenum line st ≡ st
unfolding add_header
add_header-old filename linenum line st include place is_system e old = rw (add_header, e, old) refl

add_header-new :
    (filename : Text) (linenum : ℕ) (line : Text) (st : IncludeState) (include : Text)
    (is_system : Bool)
    → include_of (cleanse_comments line) ≡ some (include, is_system)
    → lookup include st.includes ≡ none
    → (place : Text) × ((add_header filename linenum line st).includes
        ≡ insert include place st.includes)
unfolding add_header
add_header-new filename linenum line st include is_system e new =
    (filename ++ codes ":" ++ show linenum, rw (add_header, e, new) refl)

-- What one line adds: `k` is there behind it if it was, or if the line includes it.
add_header_iff :
    (filename : Text) (linenum : ℕ) (line : Text) (st : IncludeState) (k : Text)
    → (has_key k (add_header filename linenum line st).includes ≡ true) ↔ (
        (has_key k st.includes ≡ true)
        ⊎ ((is_system : Bool) × (include_of (cleanse_comments line) ≡ some (k, is_system))))
add_header_iff filename linenum line st k =
    elim (Option-cases (include_of (cleanse_comments line))) [
      | inl e ↦
          let same = add_header-plain filename linenum line st e in
          rw same (λ x. inl x, λ c. elim c [ inl x ↦ x | inr (b, q) ↦ ground arith ])
      | inr ((include, is_system), e) ↦ elim (Option-cases (lookup include st.includes)) [
        | inl new ↦
            let (place, added) = add_header-new filename linenum line st include is_system e new in
            rw (added, has_key-insert k include place st.includes)
              (
                λ x. elim (Bool-cases (k == include)) [
                  | inl b ↦ inr (
                    is_system,
                    e ∙ ap (λ t. some (t, is_system)) (sym ((list_beq_iff k include).0 b)),
                  )
                  | inr b ↦ inl (ground arith)
                ],
                λ c. elim c [
                  | inl x ↦ ground arith
                  | inr (b, q) ↦
                      let one : k ≡ include = ground arith in
                      let b' = (list_beq_iff k include).1 one in ground arith
                ],
              )
        | inr (place, old) ↦
            let same = add_header-old filename linenum line st include place is_system e old in
            let known : has_key include st.includes ≡ true = ground arith in
            rw same (
              λ x. inl x,
              λ c. elim c [
                | inl x ↦ x
                | inr (b, q) ↦ let one : k ≡ include = ground arith in rw one known
              ],
            )
      ]
    ]

add_header-kept :
    (filename : Text) (linenum : ℕ) (line : Text) (st : IncludeState) (k place : Text)
    → lookup k st.includes ≡ some place
    → lookup k (add_header filename linenum line st).includes ≡ some place
add_header-kept filename linenum line st k place h =
    elim (Option-cases (include_of (cleanse_comments line))) [
      | inl e ↦ rw (add_header-plain filename linenum line st e) h
      | inr ((include, is_system), e) ↦ elim (Option-cases (lookup include st.includes)) [
        | inl new ↦
            let (new_place, added) =
              add_header-new filename linenum line st include is_system e new in
            rw (added, lookup-insert k include new_place st.includes) (grind (arith, list_beq_iff))
        | inr (old_place, old) ↦
            rw (add_header-old filename linenum line st include old_place is_system e old) h
      ]
    ]

add_headers-kept :
    (filename : Text) (linenum : ℕ) (headerfile : List Text) (st : IncludeState) (k place : Text)
    → lookup k st.includes ≡ some place
    → lookup k (add_headers filename linenum headerfile st).includes ≡ some place
unfolding add_headers
add_headers-kept filename linenum [] st k place h = h
add_headers-kept filename linenum (line ∷ headerfile) st k place h =
    add_headers-kept filename (linenum + 1) headerfile (add_header filename (linenum + 1) line st) k
      place (add_header-kept filename (linenum + 1) line st k place h)

Listed-nil : (k : Text) → ¬ Listed k []
Listed-nil k l = elim l [ ]

Listed-uncons :
    (k line : Text) (lines : List Text)
    → Listed k (line ∷ lines)
    → ((is_system : Bool) × (include_of (cleanse_comments line) ≡ some (k, is_system)))
      ⊎ Listed k lines
Listed-uncons k line lines (here _ _ b e) = inl (b, e)
Listed-uncons k line lines (later _ _ l) = inr l

add_headers_iff :
    (filename : Text) (linenum : ℕ) (headerfile : List Text) (st : IncludeState) (k : Text)
    → (has_key k (add_headers filename linenum headerfile st).includes ≡ true)
      ↔ ((has_key k st.includes ≡ true) ⊎ Listed k headerfile)
unfolding add_headers
add_headers_iff filename linenum [] st k =
    (λ x. inl x, λ c. elim c [ inl x ↦ x | inr l ↦ absurd (Listed-nil k l) ])
add_headers_iff filename linenum (line ∷ headerfile) st k =
    let one = add_header_iff filename (linenum + 1) line st k in
    let more =
      add_headers_iff filename (linenum + 1) headerfile (add_header filename (linenum + 1) line st)
        k in
    (
      λ x. elim (more.0 x) [
        | inl y ↦ elim (one.0 y) [ inl z ↦ inl z | inr (b, e) ↦ inr (here line headerfile b e) ]
        | inr l ↦ inr (later line headerfile l)
      ],
      λ c. elim c [
        | inl x ↦ more.1 (inl (one.1 (inl x)))
        | inr l ↦ elim (Listed-uncons k line headerfile l) [
          | inl z ↦ more.1 (inl (one.1 (inr z)))
          | inr l' ↦ more.1 (inr l')
        ]
      ],
    )

-- UpdateIncludeState leaves the place of every header that the include state has, and adds those
-- that a line of the file includes and no others.
pub update_include_state_lem :
    (filename : Text) (headerfile : List Text) (st : IncludeState) (k : Text)
    → ((place : Text)
        → lookup k st.includes ≡ some place
        → lookup k (update_include_state filename (some headerfile) st).0.includes ≡ some place)
      × ((has_key k (update_include_state filename (some headerfile) st).0.includes ≡ true)
          ↔ ((has_key k st.includes ≡ true) ⊎ Listed k headerfile))
unfolding update_include_state
update_include_state_lem filename headerfile st k = (
  λ place h. add_headers-kept filename 0 headerfile st k place h,
  add_headers_iff filename 0 headerfile st k,
)
