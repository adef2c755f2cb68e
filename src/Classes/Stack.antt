-- ===== src/Classes/Stack.antt =====
-- clint.py: what holds of the stack of classes between two lines.
use mathlib.Core.Path.{subst}
use dlmalloc.Prelude.{
  ℕ, suc, ◌+◌, ◌≤◌, ◌<◌, ◌≡◌, ◌↔◌, refl, sym, ◌∙◌, inl, inr, ◌⊎◌, true, false, List, [], ◌∷◌, some,
  arith, Bool-cases, Option-cases, leb,
}
use dlmalloc.Text.{Text, codes, count, occurs}
use dlmalloc.Classes.{
  ClassInfo, new_class, push_class, declared_class, dropped, waiting, entered, open_class,
  look_for_brace, note_virtual, count_braces, track_class, track_top, track_classes, base_classname,
}

-- A class on the stack before line `next`: it was declared on an earlier line, its virtual method
-- stands between the two, and its opening brace was seen exactly if it has a depth.
pub record ClassOk (next : ℕ) (c : ClassInfo) : Type 0 where
  pub declared_before : c.linenum < next
  pub virtual_within : (v : ℕ) → c.virtual_method_linenumber ≡ some v → (c.linenum ≤ v) × (v < next)
  pub open_iff : (c.seen_open_brace ≡ true) ↔ (0 < c.brace_depth)

-- Classes that stand further in were declared later.
abbrev pub StackOk : ℕ → List ClassInfo → Type 0
StackOk next [] = Unit
StackOk next (c ∷ outer) = ClassOk next c × StackOk c.linenum outer

ClassOk-later : {n m : ℕ} (c : ClassInfo) → n ≤ m → ClassOk n c → ClassOk m c
ClassOk-later c l ok = record {
  declared_before = let d = ok.declared_before in omega arith;
  virtual_within = λ v e. let w = ok.virtual_within v e in omega arith;
  open_iff = ok.open_iff;
}

StackOk-later : {n m : ℕ} (stack : List ClassInfo) → n ≤ m → StackOk n stack → StackOk m stack
StackOk-later [] l ok = tt
StackOk-later (c ∷ outer) l ok = (ClassOk-later c l ok.0, ok.1)

new_class-Ok : (name : Text) (lines : List Text) (n : ℕ) → ClassOk (suc n) (new_class name lines n)
unfolding new_class
new_class-Ok name lines n = record {
  declared_before = omega arith;
  virtual_within = λ v e. absurd (ground arith);
  open_iff = ground arith;
}

StackOk-new :
    (name : Text) (lines : List Text) (n : ℕ) (stack : List ClassInfo)
    → StackOk n stack
    → StackOk (new_class name lines n).linenum stack
unfolding new_class
StackOk-new name lines n stack ok = ok

push_class-Ok :
    (lines : List Text) (n : ℕ) (line : Text) (stack : List ClassInfo)
    → StackOk n stack
    → StackOk (suc n) (push_class lines n line stack)
unfolding push_class
push_class-Ok lines n line stack ok = elim (Option-cases (declared_class line)) [
  | inl e ↦ rw (push_class, e) (StackOk-later stack (omega arith) ok)
  | inr (name, e) ↦
      rw (push_class, e) (new_class-Ok name lines n, StackOk-new name lines n stack ok)
]

-- Two descriptions of one class, apart from its braces.
record Same (c d : ClassInfo) : Type 0 where
  same_linenum : d.linenum ≡ c.linenum
  same_virtual : d.virtual_method_linenumber ≡ c.virtual_method_linenumber
  same_depth : d.brace_depth ≡ c.brace_depth

look_for_brace-Same : (line : Text) (c : ClassInfo) → Same c (look_for_brace line c)
unfolding look_for_brace
look_for_brace-Same line c = ground arith

open_class-cases :
    (line : Text) (c : ClassInfo)
    → (open_class line c ≡ dropped)
      ⊎ (((d : ClassInfo) × (open_class line c ≡ waiting d)
            × Same c d
            × (d.seen_open_brace ≡ false)
            × (c.seen_open_brace ≡ false))
          ⊎ ((d : ClassInfo) × (open_class line c ≡ entered d)
              × Same c d
              × (d.seen_open_brace ≡ true)))
unfolding open_class
open_class-cases line c = elim (Bool-cases c.seen_open_brace) [
  | inl e ↦ inr (
      inr (c, rw e refl, record { same_linenum = refl; same_virtual = refl; same_depth = refl }, e))
  | inr e ↦ elim (Bool-cases (occurs (codes ";") line)) [
    | inl o ↦ inl (ground arith)
    | inr o ↦
        let d = look_for_brace line c in
        let same = look_for_brace-Same line c in
        elim (Bool-cases d.seen_open_brace) [
          | inl b ↦ inr (inr (d, ground arith, same, b))
          | inr b ↦ inr (inl (d, ground arith, same, b, e))
        ]
  ]
]

note_virtual-Same :
    (n : ℕ) (line base : Text) (c : ClassInfo)
    → ((note_virtual n line base c).linenum ≡ c.linenum)
      × ((note_virtual n line base c).seen_open_brace ≡ c.seen_open_brace)
      × ((note_virtual n line base c).brace_depth ≡ c.brace_depth)
      × (((note_virtual n line base c).virtual_method_linenumber ≡ c.virtual_method_linenumber)
          ⊎ ((note_virtual n line base c).virtual_method_linenumber ≡ some n))
unfolding note_virtual
note_virtual-Same n line base c = ground arith

count_braces-Ok :
    (filename line : Text) (n : ℕ) (c : ClassInfo) (outer : List ClassInfo)
    → c.linenum < n
    → ((v : ℕ) → c.virtual_method_linenumber ≡ some v → (c.linenum ≤ v) × (v < n))
    → c.seen_open_brace ≡ true
    → StackOk c.linenum outer
    → StackOk n (count_braces filename line c outer).0
unfolding count_braces
count_braces-Ok filename line n c outer before within seen ok =
    elim (Bool-cases (leb (c.brace_depth + count line (codes "{")) (count line (codes "}")))) [
      | inl e ↦ rw e (StackOk-later outer (omega arith) ok)
      | inr e ↦ rw e (
        record {
          declared_before = before;
          virtual_within = within;
          open_iff = (λ _. ground arith, λ _. seen);
        },
        ok,
      )
    ]

virtual_range :
    (c d e : ClassInfo) (n : ℕ)
    → ClassOk (suc n) c
    → Same c d
    → e.linenum ≡ c.linenum
    → ((e.virtual_method_linenumber ≡ d.virtual_method_linenumber)
        ⊎ (e.virtual_method_linenumber ≡ some n))
    → (v : ℕ) → e.virtual_method_linenumber ≡ some v
    → (e.linenum ≤ v) × (v < suc n)
virtual_range c d e n ok same at (inl old) v h =
    let w = ok.virtual_within v (sym same.same_virtual ∙ sym old ∙ h) in omega arith
virtual_range c d e n ok same at (inr new) v h =
    let o = ok.declared_before in let q : n ≡ v = ground arith in omega arith

waiting-Ok :
    (n : ℕ) (c d : ClassInfo)
    → ClassOk n c
    → Same c d
    → d.seen_open_brace ≡ false
    → c.seen_open_brace ≡ false
    → ClassOk n d
waiting-Ok n c d ok same shut was_shut = record {
  declared_before = let o = ok.declared_before in let s = same.same_linenum in omega arith;
  virtual_within = λ v e.
      let w = ok.virtual_within v (sym same.same_virtual ∙ e) in
      let s = same.same_linenum in omega arith;
  open_iff = let i = ok.open_iff in let s = same.same_depth in ground arith;
}

entered-Ok :
    (filename line base : Text) (n : ℕ) (c d : ClassInfo) (outer : List ClassInfo)
    → ClassOk (suc n) c
    → Same c d
    → d.seen_open_brace ≡ true
    → StackOk c.linenum outer
    → StackOk (suc n) (count_braces filename line (note_virtual n line base d) outer).0
entered-Ok filename line base n c d outer ok same seen rest =
    let e = note_virtual n line base d in
    let (l, s, b, v) = note_virtual-Same n line base d in
    let at : e.linenum ≡ c.linenum = l ∙ same.same_linenum in
    let before : e.linenum < suc n = let o = ok.declared_before in omega arith in
    count_braces-Ok filename line (suc n) e outer before (virtual_range c d e n ok same at v)
      (s ∙ seen) (subst (λ k. StackOk k outer) (sym at) rest)

track_class-Ok :
    (filename line : Text) (n : ℕ) (c : ClassInfo) (outer : List ClassInfo)
    → ClassOk (suc n) c
    → StackOk c.linenum outer
    → StackOk (suc n) (track_class filename n line c outer).0
unfolding track_class
track_class-Ok filename line n c outer ok rest = elim (open_class-cases line c) [
  | inl e ↦
      rw (track_class, e) (StackOk-later outer (let o = ok.declared_before in omega arith) rest)
  | inr (inl (d, e, same, shut, was_shut)) ↦
      rw (track_class, e)
        (
          waiting-Ok (suc n) c d ok same shut was_shut,
          subst (λ k. StackOk k outer) (sym same.same_linenum) rest,
        )
  | inr (inr (d, e, same, seen)) ↦
      rw (track_class, e)
        (entered-Ok filename line (base_classname d.name) n c d outer ok same seen rest)
]

track_top-Ok :
    (filename : Text) (n : ℕ) (line : Text) (stack : List ClassInfo)
    → StackOk (suc n) stack
    → StackOk (suc n) (track_top filename n line stack).0
unfolding track_top
track_top-Ok filename n line [] ok = tt
track_top-Ok filename n line (c ∷ outer) ok = track_class-Ok filename line n c outer ok.0 ok.1

-- One line moves the stack of classes on: classes further in were declared later, virtual methods
-- stand behind the declaration of their class, and a class has a depth exactly when its brace was
-- seen.
pub track_classes-Ok :
    (filename : Text) (lines : List Text) (n : ℕ) (line : Text) (stack : List ClassInfo)
    → StackOk n stack
    → StackOk (suc n) (track_classes filename lines n line stack).0
unfolding track_classes
track_classes-Ok filename lines n line stack ok =
    track_top-Ok filename n line (push_class lines n line stack)
      (push_class-Ok lines n line stack ok)
