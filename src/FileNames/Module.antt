-- ===== src/FileNames/Module.antt =====
-- clint.py, `FilesBelongToSameModule`: its answer in terms of the two module names.
use mathlib.Core.List.{reverse, reverse-append, reverse-reverse}
use dlmalloc.Prelude.{
  suc, ◌-◌, ◌≡◌, ◌≢◌, ◌↔◌, refl, sym, ap, ◌∙◌, inl, inr, true, false, [], ◌∷◌, ◌++◌, length,
  length-append, take-append, arith, Bool-cases, if◌then◌else◌, ◌==◌, nat_eq, nat_beq_iff,
}
use dlmalloc.Text.{Text, codes, starts_with, ends_with}
use dlmalloc.FileNames.{before_last, source_module, header_module, files_belong_to_same_module}

starts_with-append : (p r : Text) → starts_with (p ++ r) p ≡ true
unfolding starts_with
starts_with-append [] [] = refl
starts_with-append [] (x ∷ r) = refl
starts_with-append (c ∷ p) r =
    let same = (nat_beq_iff c c).1 refl in let more = starts_with-append p r in ground arith

starts_with-split : (s p : Text) → starts_with s p ≡ true → (r : Text) × (s ≡ p ++ r)
unfolding starts_with
starts_with-split s [] h = (s, refl)
starts_with-split [] (c ∷ p) h = ground arith
starts_with-split (x ∷ s) (c ∷ p) h = elim (Bool-cases (x == c)) [
  | inl e ↦
      let (r, split) = starts_with-split s p (ground arith) in
      let same = (nat_beq_iff x c).0 e in (r, ap (λ t. x ∷ t) split ∙ ap (λ t. t ∷ p ++ r) same)
  | inr e ↦ ground arith
]

ends_with-append : (q p : Text) → ends_with (q ++ p) p ≡ true
unfolding ends_with
ends_with-append q p = rw (reverse-append q p) (starts_with-append (reverse p) (reverse q))

ends_with-split : (s p : Text) → ends_with s p ≡ true → (q : Text) × (s ≡ q ++ p)
unfolding ends_with
ends_with-split s p h =
    let (r, split) = starts_with-split (reverse s) (reverse p) h in
    (
      reverse r,
      sym (reverse-reverse s)
          ∙ ap reverse split
          ∙ reverse-append (reverse p) r
          ∙ ap (λ t. reverse r ++ t) (reverse-reverse p),
    )

before_last-append : (q p : Text) → p ≢ [] → before_last (length p) (q ++ p) ≡ q
unfolding before_last
before_last-append q [] n = absurd (n refl)
before_last-append q (c ∷ p) n =
    let l : length (q ++ c ∷ p) - suc (length p) ≡ length q =
      omega (arith, length-append q (c ∷ p)) in
    rw l (let kept = take-append q (c ∷ p) in ground arith)

same_module-step :
    (filename_cc filename_h : Text)
    → ends_with filename_cc (codes ".c") ≡ true
    → ends_with filename_h (codes ".h") ≡ true
    → files_belong_to_same_module filename_cc filename_h ≡ (
        if ends_with (source_module filename_cc) (header_module filename_h)
        then (true, before_last (length (header_module filename_h)) (source_module filename_cc))
        else (false, []))
unfolding files_belong_to_same_module
same_module-step filename_cc filename_h c h = rw (c, h) refl

-- Two names, for .c and .h, whose header module is not empty, belong to the same module exactly
-- when the header module is the end of the source module; what is left of it is then the second
-- result.
pub files_belong_to_same_module_iff :
    (filename_cc filename_h common_path : Text)
    → ends_with filename_cc (codes ".c") ≡ true
    → ends_with filename_h (codes ".h") ≡ true
    → header_module filename_h ≢ []
    → (files_belong_to_same_module filename_cc filename_h ≡ (true, common_path))
      ↔ (source_module filename_cc ≡ common_path ++ header_module filename_h)
files_belong_to_same_module_iff filename_cc filename_h common_path c h n =
    let step = same_module-step filename_cc filename_h c h in
    let cc = source_module filename_cc in
    let hm = header_module filename_h in
    (
      λ e. elim (Bool-cases (ends_with cc hm)) [
        | inl w ↦
            let (q, split) = ends_with-split cc hm w in
            let kept : before_last (length hm) cc ≡ q = rw split (before_last-append q hm n) in
            let same : common_path ≡ q = grind arith in split ∙ ap (λ t. t ++ hm) (sym same)
        | inr w ↦ grind arith
      ],
      λ split.
          let w : ends_with cc hm ≡ true = rw split (ends_with-append common_path hm) in
          let kept : before_last (length hm) cc ≡ common_path =
            rw split (before_last-append common_path hm n) in
          step ∙ rw w (ap (λ t. (true, t)) kept),
    )
