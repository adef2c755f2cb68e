-- ===== src/WhatYouUse/Latest.antt =====
-- clint.py, `CheckForIncludeWhatYouUse`: which line and name the map `required` holds for a header.
use dlmalloc.Prelude.{
  ℕ, ◌+◌, ◌≡◌, refl, sym, ◌∙◌, ap, Bool, true, false, ◌&&◌, List, [], ◌∷◌, Option, none, some, ◌==◌,
  text_eq, if◌then◌else◌, Bool-cases, inl, inr,
}
use dlmalloc.Prelude.Dict.{lookup, insert, lookup-insert}
use dlmalloc.Text.{Text, codes, occurs}
use dlmalloc.Regex.{found}
use dlmalloc.WhatYouUse.{
  Required, uses_string, require_string, require_entities, skipped, require_line, require_lines,
}
use dlmalloc.WhatYouUse.Tables.{Entity, algorithm_entities, template_entities}

-- The later of two finds.
abbrev pub later : {A : Type 0} → Option A → Option A → Option A
later earlier none = earlier
later earlier (some a) = some a

-- The last of the entities of a header that the line has.
abbrev pub last_entity : Text → Text → List Entity → Option Text
last_entity header line [] = none
last_entity header line ((pattern, template, source) ∷ more) =
    later (if found pattern line && header == source then some template else none)
      (last_entity header line more)

abbrev pub string_name : Text → Text → Option Text
string_name header line =
    if uses_string line && header == codes "<string>" then some (codes "string") else none

-- What a line needs a header for: of several reasons the last, in the order string, algorithms,
-- templates. A line with no `<` has no template.
abbrev pub reason : Text → Text → Option Text
reason header line =
    if skipped line
    then none
    else later (later (string_name header line) (last_entity header line algorithm_entities))
        (if occurs (codes "<") line then last_entity header line template_entities else none)

abbrev pub at_line : ℕ → Option Text → Option (ℕ × Text)
at_line linenum none = none
at_line linenum (some template) = some (linenum, template)

-- The last line that needs the header, and what for.
abbrev pub latest : Text → ℕ → List Text → Option (ℕ × Text)
latest header linenum [] = none
latest header linenum (line ∷ lines) =
    later (at_line linenum (reason header line)) (latest header (linenum + 1) lines)

later_assoc : {A : Type 0} (a b c : Option A) → later a (later b c) ≡ later (later a b) c
later_assoc a b none = refl
later_assoc a b (some c) = refl

at_line-later :
    (n : ℕ) (a b : Option Text) → at_line n (later a b) ≡ later (at_line n a) (at_line n b)
at_line-later n a none = refl
at_line-later n a (some b) = refl

require_string_lem :
    (header : Text) (n : ℕ) (line : Text) (required : Required)
    → lookup header (require_string n line required)
      ≡ later (lookup header required) (at_line n (string_name header line))
unfolding require_string
require_string_lem header n line required =
    let l = lookup-insert header (codes "<string>") (n, codes "string") required in
    elim (Bool-cases (uses_string line)) [
      | inr e ↦ rw e refl
      | inl e ↦ elim (Bool-cases (header == codes "<string>")) [
        | inl f ↦ rw (e, l, f) refl
        | inr f ↦ rw (e, l, f) refl
      ]
    ]

require_entity_lem :
    (header : Text) (n : ℕ) (test : Bool) (template source : Text) (required : Required)
    → lookup header (if test then insert source (n, template) required else required)
      ≡ later
          (lookup header required)
          (at_line n (if test && header == source then some template else none))
require_entity_lem header n false template source required = refl
require_entity_lem header n true template source required =
    let l = lookup-insert header source (n, template) required in
    elim (Bool-cases (header == source)) [ inl f ↦ rw (l, f) refl | inr f ↦ rw (l, f) refl ]

require_entities_lem :
    (header : Text) (n : ℕ) (line : Text) (entities : List Entity) (required : Required)
    → lookup header (require_entities n line entities required)
      ≡ later (lookup header required) (at_line n (last_entity header line entities))
unfolding require_entities
require_entities_lem header n line [] required = refl
require_entities_lem header n line ((pattern, template, source) ∷ more) required =
    let first = if found pattern line && header == source then some template else none in
    let rest = last_entity header line more in
    require_entities_lem header n line more
      (if found pattern line then insert source (n, template) required else required)
    ∙ ap (λ o. later o (at_line n rest))
        (require_entity_lem header n (found pattern line) template source required)
    ∙ sym (later_assoc (lookup header required) (at_line n first) (at_line n rest))
    ∙ ap (later (lookup header required)) (sym (at_line-later n first rest))

-- The string and the algorithms of a line.
require_named_lem :
    (header : Text) (n : ℕ) (line : Text) (required : Required)
    → lookup header (require_entities n line algorithm_entities (require_string n line required))
      ≡ later
          (lookup header required)
          (at_line n (later (string_name header line) (last_entity header line algorithm_entities)))
require_named_lem header n line required =
    let named = string_name header line in
    let last = last_entity header line algorithm_entities in
    require_entities_lem header n line algorithm_entities (require_string n line required)
    ∙ ap (λ o. later o (at_line n last)) (require_string_lem header n line required)
    ∙ sym (later_assoc (lookup header required) (at_line n named) (at_line n last))
    ∙ ap (later (lookup header required)) (sym (at_line-later n named last))

require_line_lem :
    (header : Text) (n : ℕ) (line : Text) (required : Required)
    → lookup header (require_line n line required)
      ≡ later (lookup header required) (at_line n (reason header line))
unfolding require_line
require_line_lem header n line required =
    let known = require_entities n line algorithm_entities (require_string n line required) in
    let named = later (string_name header line) (last_entity header line algorithm_entities) in
    let last = last_entity header line template_entities in
    let l = require_named_lem header n line required in
    elim (Bool-cases (skipped line)) [
      | inl e ↦ rw e refl
      | inr e ↦ elim (Bool-cases (occurs (codes "<") line)) [
        | inr f ↦ rw (e, f) l
        | inl f ↦
            rw (e, f)
              (require_entities_lem header n line template_entities known
                ∙ ap (λ o. later o (at_line n last)) l
                ∙ sym (later_assoc (lookup header required) (at_line n named) (at_line n last))
                ∙ ap (later (lookup header required)) (sym (at_line-later n named last)))
      ]
    ]

require_from :
    (header : Text) (n : ℕ) (lines : List Text) (required : Required)
    → lookup header (require_lines n lines required)
      ≡ later (lookup header required) (latest header n lines)
unfolding require_lines
require_from header n [] required = refl
require_from header n (line ∷ lines) required =
    require_from header (n + 1) lines (require_line n line required)
    ∙ ap (λ o. later o (latest header (n + 1) lines)) (require_line_lem header n line required)
    ∙ sym (
        later_assoc (lookup header required) (at_line n (reason header line))
          (latest header (n + 1) lines))

later-none : {A : Type 0} (a : Option A) → later none a ≡ a
later-none none = refl
later-none (some a) = refl

-- Behind the loop over the lines, the map `required` holds for a header the last line that needs
-- it, with the last reason on that line (`string` before the algorithms before the templates), and
-- nothing if no line does. Lines that are empty or begin with `#` need none.
pub require_lines_lem :
    (header : Text) (lines : List Text)
    → lookup header (require_lines 0 lines []) ≡ latest header 0 lines
require_lines_lem header lines = require_from header 0 lines [] ∙ later-none (latest header 0 lines)
