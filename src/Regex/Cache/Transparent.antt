-- ===== src/Regex/Cache/Transparent.antt =====
-- clint.py, `Match` and `Search`: the cache changes no result.
use dlmalloc.Prelude.{
  ◌≡◌, refl, sym, ◌∙◌, List, [], ◌∷◌, Option, some, text_eq, arith, ◌==◌, true, Bool-cases,
  Option-cases, inl, inr, list_beq_iff,
}
use dlmalloc.Prelude.Dict.{lookup, insert, lookup-insert, has_key}
use dlmalloc.Text.{Text}
use dlmalloc.Regex.Cache.{
  Re, RegexpCompileCache, Result, value, compile_error, key_error, Call, match, search, and_then,
  item, compile_pattern, store_compiled, call_method, match_cached, search_cached, call_cached,
  call_all,
}

module _ {P M : Type 0} (re : Re P M) where
  -- What a call gives with no cache: the pattern is compiled each time.
  abbrev pub call_fresh : Call → Result (Option M)
  call_fresh (match pattern s) =
      and_then (compile_pattern re pattern) (λ p. value (re.match_with p s))
  call_fresh (search pattern s) =
      and_then (compile_pattern re pattern) (λ p. value (re.search_with p s))

  abbrev pub call_all_fresh : List Call → Result (List (Option M))
  call_all_fresh [] = value []
  call_all_fresh (call ∷ calls) =
      and_then (call_fresh call)
        (λ result. and_then (call_all_fresh calls) (λ results. value (result ∷ results)))

  -- Every entry is its pattern, compiled.
  abbrev pub IsCompiled : RegexpCompileCache P → Type 0
  IsCompiled cache =
      (pattern : Text) (p : P) → lookup pattern cache ≡ some p → re.compile pattern ≡ some p

  insert-IsCompiled :
      (pattern : Text) (p : P) (cache : RegexpCompileCache P)
      → re.compile pattern ≡ some p
      → IsCompiled cache
      → IsCompiled (insert pattern p cache)
  insert-IsCompiled pattern p cache e h other q found =
      let l = lookup-insert other pattern p cache in
      elim (Bool-cases (other == pattern)) [
        | inl same ↦
            let k : other ≡ pattern = (list_beq_iff other pattern).0 same in
            let stored : some p ≡ some q = sym (l ∙ rw same refl) ∙ found in rw k (e ∙ stored)
        | inr differs ↦ h other q (sym (l ∙ rw differs refl) ∙ found)
      ]

  -- A result with a cache behind it is this one, and the cache is in order.
  abbrev Answers : {A : Type 0} → Result A → Result (A × RegexpCompileCache P) → Type 0
  Answers fresh (value (result, next)) = (fresh ≡ value result) × IsCompiled next
  Answers fresh compile_error = fresh ≡ compile_error
  Answers fresh key_error = ⊥

  call_method-Answers :
      (method : P → Option M) (pattern : Text) (cache : RegexpCompileCache P)
      → IsCompiled cache
      → Answers
          (and_then (compile_pattern re pattern) (λ p. value (method p)))
          (call_method re method pattern cache)
  unfolding call_method store_compiled
  call_method-Answers method pattern cache h = elim (Option-cases (lookup pattern cache)) [
    | inr (p, e) ↦
        let c = h pattern p e in
        rw (call_method, store_compiled, has_key, e, compile_pattern, c, item, e) (refl, h)
    | inl e ↦ elim (Option-cases (re.compile pattern)) [
      | inl f ↦ rw (call_method, store_compiled, has_key, e, compile_pattern, f) refl
      | inr (p, f) ↦
          let same : (pattern == pattern) ≡ true = (list_beq_iff pattern pattern).1 refl in
          let l : lookup pattern (insert pattern p cache) ≡ some p =
            lookup-insert pattern pattern p cache ∙ rw same refl in
          rw (call_method, store_compiled, has_key, e, compile_pattern, f, item, l)
            (refl, insert-IsCompiled pattern p cache f h)
    ]
  ]

  call_cached-Answers :
      (call : Call) (cache : RegexpCompileCache P)
      → IsCompiled cache
      → Answers (call_fresh call) (call_cached re call cache)
  unfolding call_cached match_cached search_cached
  call_cached-Answers (match pattern s) cache h =
      call_method-Answers (λ p. re.match_with p s) pattern cache h
  call_cached-Answers (search pattern s) cache h =
      call_method-Answers (λ p. re.search_with p s) pattern cache h

  Answers-value :
      {B C : Type 0} (f : B → C) (fresh : Result B) (r : Result (B × RegexpCompileCache P))
      → Answers fresh r
      → Answers (and_then fresh (λ b. value (f b))) (and_then r (λ (b, last). value (f b, last)))
  Answers-value f fresh (value (b, last)) h = rw h.0 (refl, h.1)
  Answers-value f fresh compile_error h = rw h refl
  Answers-value f fresh key_error h = elim h [ ]

  -- One call, and then others.
  Answers-then :
      {A B C : Type 0} (join : A → B → C) (fresh : Result A) (r : Result (A × RegexpCompileCache P))
      (fresh' : Result B) (next : RegexpCompileCache P → Result (B × RegexpCompileCache P))
      → Answers fresh r
      → ((cache : RegexpCompileCache P) → IsCompiled cache → Answers fresh' (next cache))
      → Answers
          (and_then fresh (λ a. and_then fresh' (λ b. value (join a b))))
          (and_then r (λ (a, cache). and_then (next cache) (λ (b, last). value (join a b, last))))
  Answers-then join fresh (value (a, cache)) fresh' next h k =
      rw h.0 (Answers-value (join a) fresh' (next cache) (k cache h.1))
  Answers-then join fresh compile_error fresh' next h k = rw h refl
  Answers-then join fresh key_error fresh' next h k = elim h [ ]

  call_all-Answers :
      (calls : List Call) (cache : RegexpCompileCache P)
      → IsCompiled cache
      → Answers (call_all_fresh calls) (call_all re calls cache)
  unfolding call_all
  call_all-Answers [] cache h = (refl, h)
  call_all-Answers (call ∷ calls) cache h =
      Answers-then (λ a b. a ∷ b) (call_fresh call) (call_cached re call cache)
        (call_all_fresh calls) (call_all re calls) (call_cached-Answers call cache h)
        (call_all-Answers calls)

  -- The results of a run, without the cache behind it.
  abbrev pub results_of : Result (List (Option M) × RegexpCompileCache P) → Result (List (Option M))
  results_of r = and_then r (λ (results, _). value results)

  results_of-Answers :
      (fresh : Result (List (Option M))) (r : Result (List (Option M) × RegexpCompileCache P))
      → Answers fresh r
      → results_of r ≡ fresh
  results_of-Answers fresh (value (results, cache)) h = sym h.0
  results_of-Answers fresh compile_error h = sym h
  results_of-Answers fresh key_error h = elim h [ ]

  -- The cache changes no result: any series of calls of Match and Search, from the empty cache,
  -- gives what it gives when every call compiles its pattern anew, and is ended by an exception of
  -- `compile` exactly when that is, and never by a KeyError.
  pub results_of-call_all :
      (calls : List Call) → results_of (call_all re calls []) ≡ call_all_fresh calls
  results_of-call_all calls =
      results_of-Answers (call_all_fresh calls) (call_all re calls [])
        (call_all-Answers calls [] (λ pattern p e. absurd (ground arith)))
