-- ===== src/WhatYouUse/Tables.antt =====
-- clint.py: the tables of `CheckForIncludeWhatYouUse`.
use mathlib.Core.List.{map}
use dlmalloc.Prelude.{List, [], ◌∷◌, ◌++◌, nat_eq, text_eq}
use dlmalloc.Text.{Text, codes}
use dlmalloc.Regex.{Regex, ◌⨾◌, ◌⊕◌, star, lazy_star, group, word_edge}
use dlmalloc.Regex.Patterns.{lit, literally, none_of, singles, dot, space, opt}

-- `_HEADERS_CONTAINING_TEMPLATES`
abbrev pub headers_containing_templates : List (Text × List Text)
headers_containing_templates =
    (codes "<deque>", (codes "deque" ∷ []))
    ∷ (
      codes "<functional>",
      (codes "unary_function"
          ∷ codes "binary_function"
          ∷ codes "plus"
          ∷ codes "minus"
          ∷ codes "multiplies"
          ∷ codes "divides"
          ∷ codes "modulus"
          ∷ codes "negate"
          ∷ codes "equal_to"
          ∷ codes "not_equal_to"
          ∷ codes "greater"
          ∷ codes "less"
          ∷ codes "greater_equal"
          ∷ codes "less_equal"
          ∷ codes "logical_and"
          ∷ codes "logical_or"
          ∷ codes "logical_not"
          ∷ codes "unary_negate"
          ∷ codes "not1"
          ∷ codes "binary_negate"
          ∷ codes "not2"
          ∷ codes "bind1st"
          ∷ codes "bind2nd"
          ∷ codes "pointer_to_unary_function"
          ∷ codes "pointer_to_binary_function"
          ∷ codes "ptr_fun"
          ∷ codes "mem_fun_t"
          ∷ codes "mem_fun"
          ∷ codes "mem_fun1_t"
          ∷ codes "mem_fun1_ref_t"
          ∷ codes "mem_fun_ref_t"
          ∷ codes "const_mem_fun_t"
          ∷ codes "const_mem_fun1_t"
          ∷ codes "const_mem_fun_ref_t"
          ∷ codes "const_mem_fun1_ref_t"
          ∷ codes "mem_fun_ref"
          ∷ []),
    )
    ∷ (codes "<limits>", (codes "numeric_limits" ∷ []))
    ∷ (codes "<list>", (codes "list" ∷ []))
    ∷ (codes "<map>", (codes "map" ∷ codes "multimap" ∷ []))
    ∷ (codes "<memory>", (codes "allocator" ∷ []))
    ∷ (codes "<queue>", (codes "queue" ∷ codes "priority_queue" ∷ []))
    ∷ (codes "<set>", (codes "set" ∷ codes "multiset" ∷ []))
    ∷ (codes "<stack>", (codes "stack" ∷ []))
    ∷ (codes "<string>", (codes "char_traits" ∷ codes "basic_string" ∷ []))
    ∷ (codes "<utility>", (codes "pair" ∷ []))
    ∷ (codes "<vector>", (codes "vector" ∷ []))
    ∷ (codes "<hash_map>", (codes "hash_map" ∷ codes "hash_multimap" ∷ []))
    ∷ (codes "<hash_set>", (codes "hash_set" ∷ codes "hash_multiset" ∷ []))
    ∷ (codes "<slist>", (codes "slist" ∷ []))
    ∷ []

-- `_RE_PATTERN_STRING`, \bstring\b
abbrev pub re_string : Regex
re_string = word_edge ⨾ lit "string" ⨾ word_edge

-- A pattern, the name of what it finds and the header of that.
abbrev pub Entity : Type 0
Entity = Regex × Text × Text

-- [^>.]\bNAME(<.*?>)?\([^\)]
abbrev pub algorithm_entity : Text → Entity
algorithm_entity name = (
  none_of (singles ">.")
      ⨾ word_edge
      ⨾ literally name
      ⨾ opt (group 1 (lit "<" ⨾ lazy_star dot ⨾ lit ">"))
      ⨾ lit "("
      ⨾ none_of (singles ")"),
  name,
  codes "<algorithm>",
)

-- `_re_pattern_algorithm_header`
abbrev pub algorithm_entities : List Entity
algorithm_entities = map algorithm_entity (
    codes "copy"
    ∷ codes "max"
    ∷ codes "min"
    ∷ codes "min_element"
    ∷ codes "sort"
    ∷ codes "swap"
    ∷ codes "transform"
    ∷ [])

-- (\<|\b)NAME\s*\<
abbrev pub template_entity : Text → Text → Entity
template_entity header name = (
  group 1 (lit "<" ⊕ word_edge) ⨾ literally name ⨾ star space ⨾ lit "<",
  name ++ codes "<>",
  header,
)

-- `_re_pattern_templates`
unfoldable pub template_entities_of : List (Text × List Text) → List Entity
template_entities_of [] = []
template_entities_of ((header, templates) ∷ more) =
    map (template_entity header) templates ++ template_entities_of more

abbrev pub template_entities : List Entity
template_entities = template_entities_of headers_containing_templates
