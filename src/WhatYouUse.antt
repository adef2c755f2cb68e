-- ===== src/WhatYouUse.antt =====
-- clint.py: `CheckForIncludeWhatYouUse`; its tables are in the child Tables.
pub mod Latest
pub mod Content
pub mod Tables
use mathlib.Core.List.{map, reverse}
use dlmalloc.Prelude.{
  ℕ, ◌+◌, Bool, true, false, not, ◌&&◌, ◌||◌, List, [], ◌∷◌, ◌++◌, Option, none, some, ◌==◌, nat_eq,
  text_eq, if◌then◌else◌, contains,
}
use dlmalloc.Prelude.Dict.{lookup, insert, has_key}
use dlmalloc.Text.{Text, codes, occurs, ends_with}
use dlmalloc.Regex.{
  Regex, ◌⨾◌, ◌⊕◌, star, lazy_star, group, line_end, word_edge, found, search_in, sub,
}
use dlmalloc.Regex.Patterns.{lit, literally, none_of, singles, dot, space, opt}
use dlmalloc.Report.{Event, error, when}
use dlmalloc.FileNames.{Paths, files_belong_to_same_module}
use dlmalloc.FileNames.Info.{full_name}
use dlmalloc.IncludeState.{IncludeState}
use dlmalloc.Includes.{update_include_state}
use dlmalloc.WhatYouUse.Tables.{
  headers_containing_templates, re_string, Entity, algorithm_entity, algorithm_entities,
  template_entity, template_entities_of, template_entities,
}

-- The map `required`: for a header, the line and the name of what needs it.
abbrev pub Required : Type 0
Required = List (Text × (ℕ × Text))

-- The first `string` of a line, if it is not of another namespace.
unfoldable pub uses_string : Text → Bool
unfolding search_in
uses_string line = elim (search_in re_string line) [
  | none ↦ false
  | some (a, b) ↦
      let prefix = reverse a.past in
      ends_with prefix (codes "std::") || not (ends_with prefix (codes "::"))
]

unfoldable pub require_string : ℕ → Text → Required → Required
require_string linenum line required =
    if uses_string line
    then insert (codes "<string>") (linenum, codes "string") required
    else required

-- The loop over one of the tables.
unfoldable pub require_entities : ℕ → Text → List Entity → Required → Required
require_entities linenum line [] required = required
require_entities linenum line ((pattern, template, header) ∷ more) required =
    require_entities linenum line more
      (if found pattern line then insert header (linenum, template) required else required)

abbrev pub skipped : Text → Bool
skipped [] = true
skipped (c ∷ line) = c == b'#'

-- One round of the loop over the lines.
unfoldable pub require_line : ℕ → Text → Required → Required
require_line linenum line required =
    let named =
      require_entities linenum line algorithm_entities (require_string linenum line required) in
    if skipped line
    then required
    else if not (occurs (codes "<") line)
    then named
    else require_entities linenum line template_entities named

unfoldable pub require_lines : ℕ → List Text → Required → Required
require_lines linenum [] required = required
require_lines linenum (line ∷ lines) required =
    require_lines (linenum + 1) lines (require_line linenum line required)

-- `_flymake\.c$`
abbrev pub re_flymake : Regex
re_flymake = lit "_flymake.c" ⨾ line_end

-- What Python decides outside of the source: the lines of a header that can be opened, and the
-- order in which a dict gives its keys.
pub record Surroundings : Type 0 where
  pub open_header : Text → Option (List Text)
  pub key_order : List Text → List Text

-- The loop over the headers included so far; the second result is `header_found`.
unfoldable pub follow_headers :
    (Text → Option (List Text)) → Text → List Text → IncludeState → Bool → IncludeState × Bool
follow_headers open_header abs_filename [] st header_found = (st, header_found)
follow_headers open_header abs_filename (header ∷ header_keys) st header_found =
    let (same_module, common_path) = files_belong_to_same_module abs_filename header in
    let fullpath = common_path ++ header in
    let (next, opened) = update_include_state fullpath (open_header fullpath) st in
    if same_module
    then follow_headers open_header abs_filename header_keys next (opened || header_found)
    else follow_headers open_header abs_filename header_keys st header_found

-- `strip('<>"')`
abbrev pub is_delimiter : ℕ → Bool
is_delimiter c = c == b'<' || c == b'>' || c == b'"'

unfoldable pub drop_delimiters : Text → Text
drop_delimiters [] = []
drop_delimiters (c ∷ s) = let rest = drop_delimiters s in if is_delimiter c then rest else c ∷ s

unfoldable pub strip_delimiters : Text → Text
strip_delimiters s = reverse (drop_delimiters (reverse (drop_delimiters s)))

-- The error for a header, if the include state does not have it.
unfoldable pub report_header : Text → IncludeState → Text → ℕ × Text → List Event
report_header filename st header (linenum, template) =
    when (not (has_key (strip_delimiters header) st.includes)) (
      error filename linenum (codes "build/include_what_you_use") 4
        (codes "Add #include " ++ header ++ codes " for " ++ template)
      ∷ [])

-- The loop over the keys of `required`.
unfoldable pub report_headers : Text → IncludeState → Required → List Text → List Event
report_headers filename st required [] = []
report_headers filename st required (header ∷ keys) = elim (lookup header required) [
  | none ↦ report_headers filename st required keys
  | some need ↦ report_header filename st header need ++ report_headers filename st required keys
]

abbrev pub keys : {A : Type 0} → List (Text × A) → List Text
keys d = map (λ entry. entry.0) d

-- The absolute name of the file, with the ending of Emacs's flymake taken off.
unfoldable pub original_name : Paths → Text → Text
original_name os filename = sub re_flymake (codes ".c") (full_name os filename)

-- `CheckForIncludeWhatYouUse`, on `clean_lines.elided`
unfoldable pub check_for_include_what_you_use :
    Surroundings → Paths → Text → List Text → IncludeState → List Event
check_for_include_what_you_use env os filename elided st =
    let required = require_lines 0 elided [] in
    let (included, header_found) =
      follow_headers env.open_header (original_name os filename) (env.key_order (keys st.includes))
        st false in
    if ends_with filename (codes ".c") && not header_found
    then []
    else report_headers filename included required (env.key_order (keys required))
