-- ===== src/WhatYouUse/Content.antt =====
-- clint.py, `CheckForIncludeWhatYouUse`: which files it is content with.
use mathlib.Core.Path.{subst}
use dlmalloc.Prelude.{
  ℕ, ◌≡◌, ◌↔◌, refl, sym, ◌∙◌, Bool, true, false, not, ◌&&◌, List, [], ◌∷◌, ◌++◌, some, ◌==◌,
  text_eq, arith, Bool-cases, Option-cases, inl, inr, contains, list_beq_iff,
}
use dlmalloc.Prelude.Dict.{lookup, has_key}
use dlmalloc.Text.{Text, codes, ends_with}
use dlmalloc.Report.{Event}
use dlmalloc.FileNames.{Paths}
use dlmalloc.IncludeState.{IncludeState}
use dlmalloc.WhatYouUse.{
  Required, require_lines, Surroundings, follow_headers, strip_delimiters, report_header,
  report_headers, keys, original_name, check_for_include_what_you_use,
}
use dlmalloc.WhatYouUse.Latest.{latest, require_lines_lem}

-- Whether the include state has a header that is needed.
abbrev pub is_included : IncludeState → Text → Bool
is_included st header = has_key (strip_delimiters header) st.includes

contains-keys :
    {A : Type 0} (header : Text) (d : List (Text × A)) (a : A)
    → lookup header d ≡ some a
    → contains (keys d) header ≡ true
contains-keys header [] a h = absurd (ground arith)
contains-keys header ((key, v) ∷ d) a h = elim (Bool-cases (header == key)) [
  | inl e ↦ ground arith
  | inr e ↦ let rest = contains-keys header d a (ground arith) in ground arith
]

report_header-included :
    (filename : Text) (st : IncludeState) (header : Text) (need : ℕ × Text)
    → is_included st header ≡ true
    → report_header filename st header need ≡ []
unfolding report_header
report_header-included filename st header need h = ground arith

report_header-missing :
    (filename : Text) (st : IncludeState) (header : Text) (need : ℕ × Text) (more : List Event)
    → report_header filename st header need ++ more ≡ []
    → (is_included st header ≡ true) × (more ≡ [])
unfolding report_header
report_header-missing filename st header need more h = ground arith

-- No report, if every header of the keys that is required is included.
report_headers-none :
    (filename : Text) (st : IncludeState) (required : Required) (headers : List Text)
    → ((header : Text) (need : ℕ × Text)
        → lookup header required ≡ some need
        → is_included st header ≡ true)
    → report_headers filename st required headers ≡ []
unfolding report_headers
report_headers-none filename st required [] h = refl
report_headers-none filename st required (header ∷ headers) h =
    let rest = report_headers-none filename st required headers h in
    elim (Option-cases (lookup header required)) [
      | inl e ↦ rw (report_headers, e) rest
      | inr (need, e) ↦
          rw (report_headers, e, report_header-included filename st header need (h header need e))
            rest
    ]

report_headers-next :
    (filename : Text) (st : IncludeState) (required : Required) (first : Text) (headers : List Text)
    → report_headers filename st required (first ∷ headers) ≡ []
    → (report_headers filename st required headers ≡ [])
      × ((need : ℕ × Text) → lookup first required ≡ some need → is_included st first ≡ true)
unfolding report_headers
report_headers-next filename st required first headers h =
    elim (Option-cases (lookup first required)) [
      | inl e ↦ (ground arith, λ need f. absurd (ground arith))
      | inr (found, e) ↦
          let more = report_headers filename st required headers in
          let split : report_header filename st first found ++ more ≡ [] = ground arith in
          let (one, rest) = report_header-missing filename st first found more split in
          (rest, λ need f. one)
    ]

report_headers-all :
    (filename : Text) (st : IncludeState) (required : Required) (headers : List Text)
    (header : Text) (need : ℕ × Text)
    → report_headers filename st required headers ≡ []
    → contains headers header ≡ true
    → lookup header required ≡ some need
    → is_included st header ≡ true
report_headers-all filename st required [] header need h c l = absurd (ground arith)
report_headers-all filename st required (first ∷ headers) header need h c l =
    let (rest, one) = report_headers-next filename st required first headers h in
    elim (Bool-cases (header == first)) [
      | inl e ↦
          let same : header ≡ first = (list_beq_iff header first).0 e in
          subst (λ k. is_included st k ≡ true) (sym same)
            (one need (subst (λ k. lookup k required ≡ some need) same l))
      | inr e ↦ report_headers-all filename st required headers header need rest (ground arith) l
    ]

opened-check :
    (env : Surroundings) (os : Paths) (filename : Text) (elided : List Text)
    (st included : IncludeState) (header_found : Bool)
    → follow_headers env.open_header
        (original_name os filename)
        (env.key_order (keys st.includes))
        st
        false
      ≡ (included, header_found)
    → (ends_with filename (codes ".c") && not header_found) ≡ false
    → check_for_include_what_you_use env os filename elided st
      ≡ report_headers filename included
          (require_lines 0 elided [])
          (env.key_order (keys (require_lines 0 elided [])))
unfolding check_for_include_what_you_use
opened-check env os filename elided st included header_found followed known =
    rw (check_for_include_what_you_use, followed, known) refl

-- Beside the case of a .c file whose header is not found, where it says nothing: if the order of
-- iteration leaves out no key of a dict, CheckForIncludeWhatYouUse is content with a file exactly
-- when every header that some line needs is included, by the file or by the header of its module.
pub check_for_include_what_you_use_iff :
    (env : Surroundings) (os : Paths) (filename : Text) (elided : List Text)
    (st included : IncludeState) (header_found : Bool)
    → ((names : List Text) (name : Text)
        → contains (env.key_order names) name ≡ contains names name)
    → follow_headers env.open_header
        (original_name os filename)
        (env.key_order (keys st.includes))
        st
        false
      ≡ (included, header_found)
    → (ends_with filename (codes ".c") && not header_found) ≡ false
    → (check_for_include_what_you_use env os filename elided st ≡ []) ↔ (
        (header : Text) (need : ℕ × Text)
        → latest header 0 elided ≡ some need
        → is_included included header ≡ true)
unfolding check_for_include_what_you_use
check_for_include_what_you_use_iff env os filename elided st included header_found complete followed
      known =
    let required = require_lines 0 elided [] in
    let names = env.key_order (keys required) in
    let opened = opened-check env os filename elided st included header_found followed known in
    (
      λ h header need l.
          let stored = require_lines_lem header elided ∙ l in
          report_headers-all filename included required names header need (sym opened ∙ h)
            (complete (keys required) header ∙ contains-keys header required need stored) stored,
      λ h.
          opened
          ∙ report_headers-none filename included required names (λ header need stored.
            h header need (sym (require_lines_lem header elided) ∙ stored)),
    )
