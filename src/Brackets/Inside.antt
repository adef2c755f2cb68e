-- ===== src/Brackets/Inside.antt =====
-- clint.py, `_GetTextInside`: what it returns is the balanced text up to the bracket that closes.
use mathlib.Core.Path.{subst}
use dlmalloc.Prelude.{
  ℕ, zero, suc, ◌+◌, ◌-◌, ◌≤◌, ◌↔◌, ◌≡◌, refl, sym, ap, ◌∙◌, true, false, List, [], ◌∷◌, ◌++◌, none,
  some, inl, inr, ◌⊎◌, arith, length, length-append, take, drop, take-append, append_assoc,
  Option-cases, Bool-cases, ◌==◌, nat_eq, nat_beq_iff,
}
use dlmalloc.Text.{Text}
use dlmalloc.Brackets.{matching_punctuation, is_closing, next_stack, close_all, text_inside}

-- A text in which every bracket is closed by its own kind.
pub data Balanced : Text → Type 0 where
  done : Balanced []
  plain :
      {c : ℕ} {r : Text}
      → is_closing c ≡ false
      → matching_punctuation c ≡ none
      → Balanced r
      → Balanced (c ∷ r)
  nested :
      {o c : ℕ} {b r : Text}
      → matching_punctuation o ≡ some c
      → Balanced b
      → Balanced r
      → Balanced (o ∷ (b ++ c ∷ r))

-- A closing bracket is no opening one.
matching-closing : (o c : ℕ) → matching_punctuation o ≡ some c → is_closing c ≡ true
unfolding matching_punctuation is_closing
matching-closing o c e = ground arith

matching-not_closing : (o c : ℕ) → matching_punctuation o ≡ some c → is_closing o ≡ false
unfolding matching_punctuation is_closing
matching-not_closing o c e = ground arith

-- The loop reads a balanced text and the closing bracket behind it.
next_stack-top : (top : ℕ) (stack : List ℕ) → next_stack top stack top ≡ some stack
unfolding next_stack
next_stack-top top stack = grind (arith, nat_beq_iff)

next_stack-plain :
    (top : ℕ) (stack : List ℕ) (c : ℕ)
    → is_closing top ≡ true
    → is_closing c ≡ false
    → matching_punctuation c ≡ none
    → next_stack top stack c ≡ some (top ∷ stack)
unfolding next_stack
next_stack-plain top stack c k p m = elim (Bool-cases (c == top)) [
  | inl e ↦ grind (arith, nat_beq_iff)
  | inr e ↦ rw (e, p, m)
]

next_stack-open :
    (top : ℕ) (stack : List ℕ) (o c : ℕ)
    → is_closing top ≡ true
    → matching_punctuation o ≡ some c
    → next_stack top stack o ≡ some (c ∷ top ∷ stack)
unfolding next_stack
next_stack-open top stack o c k m = elim (Bool-cases (o == top)) [
  | inl e ↦ grind (arith, nat_beq_iff, matching-not_closing)
  | inr e ↦ rw (e, matching-not_closing o c m, m)
]

close_all-step :
    (top : ℕ) (stack stack' : List ℕ) (c : ℕ) (rest : Text) (position : ℕ)
    → next_stack top stack c ≡ some stack'
    → close_all (top ∷ stack) (c ∷ rest) position ≡ close_all stack' rest (position + 1)
unfolding close_all
close_all-step top stack stack' c rest position e = rw (close_all, e) refl

close_all-stuck :
    (top : ℕ) (stack : List ℕ) (c : ℕ) (rest : Text) (position : ℕ)
    → next_stack top stack c ≡ none
    → close_all (top ∷ stack) (c ∷ rest) position ≡ none
unfolding close_all
close_all-stuck top stack c rest position e = rw (close_all, e) refl

close_all-empty :
    (top : ℕ) (stack : List ℕ) (position : ℕ) → close_all (top ∷ stack) [] position ≡ none
unfolding close_all
close_all-empty top stack position = refl

close_all-Balanced :
    {b : Text} (top : ℕ) (stack : List ℕ) (after : Text) (position : ℕ)
    → is_closing top ≡ true
    → Balanced b
    → close_all (top ∷ stack) (b ++ top ∷ after) position
      ≡ close_all stack after (position + length b + 1)
close_all-Balanced top stack after position k done =
    close_all-step top stack stack top after position (next_stack-top top stack)
    ∙ ap (close_all stack after) (omega arith)
close_all-Balanced top stack after position k (plain {c} {r} p m h) =
    close_all-step top stack (top ∷ stack) c (r ++ top ∷ after) position
      (next_stack-plain top stack c k p m)
    ∙ close_all-Balanced top stack after (position + 1) k h
    ∙ ap (close_all stack after) (omega arith)
close_all-Balanced top stack after position k (nested {o} {c} {b} {r} m h h') =
    close_all-step top stack (c ∷ top ∷ stack) o ((b ++ c ∷ r) ++ top ∷ after) position
      (next_stack-open top stack o c k m)
    ∙ ap (λ t. close_all (c ∷ top ∷ stack) t (position + 1)) (append_assoc b (c ∷ r) (top ∷ after))
    ∙ close_all-Balanced c (top ∷ stack) (r ++ top ∷ after) (position + 1) (matching-closing o c m)
        h
    ∙ close_all-Balanced top stack after (position + 1 + length b + 1) k h'
    ∙ ap (close_all stack after) (omega (arith, length-append b (c ∷ r)))

-- The three ways a round of the loop can go on.
next_stack-cases :
    (top : ℕ) (stack stack' : List ℕ) (c : ℕ)
    → next_stack top stack c ≡ some stack'
    → ((c ≡ top) × (stack' ≡ stack))
      ⊎ (((is_closing c ≡ false) × (matching_punctuation c ≡ none) × (stack' ≡ top ∷ stack))
          ⊎ ((close : ℕ) × (matching_punctuation c ≡ some close) × (stack' ≡ close ∷ top ∷ stack)))
unfolding next_stack
next_stack-cases top stack stack' c h = elim (Bool-cases (c == top)) [
  | inl e ↦ inl ((nat_beq_iff c top).0 e, ground arith)
  | inr e ↦ elim (Option-cases (matching_punctuation c)) [
    | inl m ↦ inr (inl (ground arith, m, ground arith))
    | inr (close, m) ↦ inr (inr (close, m, ground arith))
  ]
]

after-shorter :
    (n close : ℕ) (b after rest : Text)
    → rest ≡ b ++ close ∷ after
    → length rest ≤ n
    → length after ≤ n
after-shorter n close b after rest split l =
    omega (arith, length-append b (close ∷ after), ap length split)

-- What the loop has read when it ends is a balanced text and the closing bracket behind it.
close_all-Sound :
    (n top : ℕ) (stack : List ℕ) (rest : Text) (position q : ℕ)
    → length rest ≤ n
    → is_closing top ≡ true
    → close_all (top ∷ stack) rest position ≡ some q
    → (b : Text) × (after : Text) × (rest ≡ b ++ top ∷ after)
      × Balanced b
      × (close_all stack after (position + length b + 1) ≡ some q)
close_all-Sound n top stack [] position q l k h =
    let e = close_all-empty top stack position in ground arith
close_all-Sound zero top stack (c ∷ rest) position q l k h = absurd (omega arith)
close_all-Sound (suc n) top stack (c ∷ rest) position q l k h =
    elim (Option-cases (next_stack top stack c)) [
      | inl e ↦ let e' = close_all-stuck top stack c rest position e in ground arith
      | inr (stack', e) ↦
          let h' : close_all stack' rest (position + 1) ≡ some q =
            sym (close_all-step top stack stack' c rest position e) ∙ h in
          elim (next_stack-cases top stack stack' c e) [
            | inl (same, popped) ↦ (
              [],
              rest,
              ap (λ x. x ∷ rest) same,
              done,
              ap (close_all stack rest) (omega arith)
                  ∙ ap (λ t. close_all t rest (position + 1)) (sym popped)
                  ∙ h',
            )
            | inr (inl (p, m, kept)) ↦
                let (b, after, split, balanced, ended) =
                  close_all-Sound n top stack rest (position + 1) q (omega arith) k
                    (ap (λ t. close_all t rest (position + 1)) (sym kept) ∙ h') in
                (
                  c ∷ b,
                  after,
                  ap (λ t. c ∷ t) split,
                  plain p m balanced,
                  ap (close_all stack after) (omega arith) ∙ ended,
                )
            | inr (inr (close, m, pushed)) ↦
                let (b, after, split, balanced, ended) =
                  close_all-Sound n close (top ∷ stack) rest (position + 1) q (omega arith)
                    (matching-closing c close m)
                    (ap (λ t. close_all t rest (position + 1)) (sym pushed) ∙ h') in
                let (b', after', split', balanced', ended') =
                  close_all-Sound n top stack after (position + 1 + length b + 1) q
                    (after-shorter n close b after rest split (omega arith)) k ended in
                (
                  c ∷ (b ++ close ∷ b'),
                  after',
                  ap (λ t. c ∷ t)
                      (split
                        ∙ ap (λ t. b ++ close ∷ t) split'
                        ∙ sym (append_assoc b (close ∷ b') (top ∷ after'))),
                  nested m balanced balanced',
                  ap (close_all stack after') (omega (arith, length-append b (close ∷ b')))
                      ∙ ended',
                )
          ]
    ]

take-before :
    (start_position close q : ℕ) (b after rest : Text)
    → rest ≡ b ++ close ∷ after
    → q ≡ start_position + length b + 1
    → take (q - 1 - start_position) rest ≡ b
take-before start_position close q b after rest split e =
    let l : q - 1 - start_position ≡ length b = omega arith in
    rw (l, split) (take-append b (close ∷ after))

text_inside-found :
    (text b after : Text) (start_position opening close q : ℕ)
    → matching_punctuation opening ≡ some close
    → close_all (close ∷ []) (drop start_position text) start_position ≡ some q
    → drop start_position text ≡ b ++ close ∷ after
    → q ≡ start_position + length b + 1
    → text_inside text start_position opening ≡ some (some b)
unfolding text_inside
text_inside-found text b after start_position opening close q m e split l =
    rw (text_inside, m, e)
      (ap (λ t. some (some t))
        (take-before start_position close q b after (drop start_position text) split l))

text_inside-none :
    (text : Text) (start_position opening close : ℕ)
    → matching_punctuation opening ≡ some close
    → close_all (close ∷ []) (drop start_position text) start_position ≡ none
    → text_inside text start_position opening ≡ some none
unfolding text_inside
text_inside-none text start_position opening close m e = rw (text_inside, m, e) refl

close_all-end : (after : Text) (p q : ℕ) → close_all [] after p ≡ some q → q ≡ p
unfolding close_all
close_all-end after p q e = ground arith

-- For an opening bracket, what `_GetTextInside` returns is the text from `start_position` up to
-- the first closing bracket that has no opening one in it: every bracket in the result is closed
-- by its own kind, and the bracket of the opening one's kind stands behind it. It returns that
-- text whenever there is one.
pub text_inside_iff :
    (text inside : Text) (start_position opening close : ℕ)
    → matching_punctuation opening ≡ some close
    → (text_inside text start_position opening ≡ some (some inside))
      ↔ (Balanced inside × ((after : Text) × (drop start_position text ≡ inside ++ close ∷ after)))
unfolding close_all
text_inside_iff text inside start_position opening close m =
    let rest = drop start_position text in
    (
      λ h. elim (Option-cases (close_all (close ∷ []) rest start_position)) [
        | inl e ↦ let f = text_inside-none text start_position opening close m e in ground arith
        | inr (q, e) ↦
            let (b, after, split, balanced, ended) =
              close_all-Sound (length rest) close [] rest start_position q (omega arith)
                (matching-closing opening close m) e in
            let f =
              text_inside-found text b after start_position opening close q m e split
                (close_all-end after (start_position + length b + 1) q ended) in
            let same : inside ≡ b = ground arith in
            subst (λ t. Balanced t × ((a : Text) × (rest ≡ t ++ close ∷ a))) (sym same)
              (balanced, (after, split))
      ],
      λ h.
          text_inside-found text inside h.1.0 start_position opening close
            (start_position + length inside + 1) m
            (ap (λ t. close_all (close ∷ []) t start_position) h.1.1
              ∙ close_all-Balanced close [] h.1.0 start_position (matching-closing opening close m)
                  h.0)
            h.1.1 refl,
    )
