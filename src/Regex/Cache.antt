-- ===== src/Regex/Cache.antt =====
-- clint.py: `_regexp_compile_cache`, `Match` and `Search`. Python's `re` is a parameter.
pub mod Transparent
use dlmalloc.Prelude.{List, [], ◌∷◌, Option, none, some, text_eq, if◌then◌else◌}
use dlmalloc.Prelude.Dict.{lookup, has_key, insert}
use dlmalloc.Text.{Text}

-- Python's `re`: none of `compile` is the exception for a text that is no pattern; a compiled
-- pattern has the methods `match` and `search`, whose result is a match object or None.
pub record Re (P M : Type 0) : Type 0 where
  pub compile : Text → Option P
  pub match_with : P → Text → Option M
  pub search_with : P → Text → Option M

-- `_regexp_compile_cache`
abbrev pub RegexpCompileCache : Type 0 → Type 0
RegexpCompileCache P = List (Text × P)

-- What a function returns, or the exception that it raises: that of `compile`, or the KeyError of
-- a missing key.
pub data Result (A : Type 0) : Type 0 where
  value : A → Result A
  compile_error key_error : Result A

-- The function to call, and its arguments `pattern` and `s`.
pub data Call : Type 0 where
  match search : Text → Text → Call

abbrev pub and_then : {A B : Type 0} → Result A → (A → Result B) → Result B
and_then (value a) f = f a
and_then compile_error f = compile_error
and_then key_error f = key_error

-- `d[key]`
abbrev pub item : {P : Type 0} → Text → RegexpCompileCache P → Result P
item key d = elim (lookup key d) [ none ↦ key_error | some p ↦ value p ]

module _ {P M : Type 0} (re : Re P M) where
  abbrev pub compile_pattern : Text → Result P
  compile_pattern pattern = elim (re.compile pattern) [ none ↦ compile_error | some p ↦ value p ]

  -- The first statement of both functions: the cache behind it.
  unfoldable pub store_compiled : Text → RegexpCompileCache P → Result (RegexpCompileCache P)
  store_compiled pattern cache =
      if has_key pattern cache
      then value cache
      else and_then (compile_pattern pattern) (λ p. value (insert pattern p cache))

  -- Both statements, for the method that the second one calls.
  unfoldable pub call_method :
      (P → Option M) → Text → RegexpCompileCache P → Result (Option M × RegexpCompileCache P)
  call_method method pattern cache =
      and_then (store_compiled pattern cache)
        (λ stored. and_then (item pattern stored) (λ p. value (method p, stored)))

  -- `Match`, and the cache behind it
  unfoldable pub match_cached :
      Text → Text → RegexpCompileCache P → Result (Option M × RegexpCompileCache P)
  match_cached pattern s cache = call_method (λ p. re.match_with p s) pattern cache

  -- `Search`
  unfoldable pub search_cached :
      Text → Text → RegexpCompileCache P → Result (Option M × RegexpCompileCache P)
  search_cached pattern s cache = call_method (λ p. re.search_with p s) pattern cache

  unfoldable pub call_cached :
      Call → RegexpCompileCache P → Result (Option M × RegexpCompileCache P)
  call_cached (match pattern s) cache = match_cached pattern s cache
  call_cached (search pattern s) cache = search_cached pattern s cache

  -- A run of the program, which an exception ends: the results of its calls, in order.
  unfoldable pub call_all :
      List Call → RegexpCompileCache P → Result (List (Option M) × RegexpCompileCache P)
  call_all [] cache = value ([], cache)
  call_all (call ∷ calls) cache = and_then (call_cached call cache) (λ (result, next).
      and_then (call_all calls next) (λ (results, last). value (result ∷ results, last)))
