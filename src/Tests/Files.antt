-- ===== src/Tests/Files.antt =====
-- The theorems on brackets, file names, whole files and options, on concrete inputs.
use mathlib.Core.Path.{subst}
use dlmalloc.Prelude.{
  ◌≡◌, ◌↔◌, ◌⊎◌, inl, inr, refl, arith, true, false, List, [], ◌∷◌, ◌++◌, none, some, pos, drop,
  ◌||◌, ◌==◌, text_eq,
}
use dlmalloc.Prelude.Dict.{lookup, has_key}
use dlmalloc.Text.{Text, codes, starts_with, ends_with, count, rfind, replace}
use dlmalloc.Brackets.{matching_punctuation, close_all, next_stack, text_inside, close_expression}
use dlmalloc.Brackets.Inside.{Balanced, text_inside_iff}
use dlmalloc.Brackets.Close.{close_expression-no_paren}
use dlmalloc.FileNames.{Paths, source_module, header_module, files_belong_to_same_module}
use dlmalloc.FileNames.Info.{full_name, has_entry, repository_name}
use dlmalloc.FileNames.Climb.{Shortens, repository_name-Returns, repository_name-never}
use dlmalloc.FileNames.Module.{files_belong_to_same_module_iff}
use dlmalloc.IncludeState.{initial}
use dlmalloc.Includes.{update_include_state}
use dlmalloc.Includes.Classes.{Listed, update_include_state_lem}
use dlmalloc.FileChecks.{check_for_header_guard, endif_line, scan_guard, read_guard, guard_events}
use dlmalloc.FileChecks.HeaderGuard.{
  first_directive, last_endif, check_for_header_guard-unbound, check_for_header_guard_iff,
}
use dlmalloc.LineChecks.Blank.{Previous, get_previous_non_blank_line_lem}

abbrev call : Text
call = codes "f(a[1], {2});"

text_inside_iff_example : (text_inside call 2 b'(' ≡ some (some (codes "a[1], {2}"))) ↔ (
    Balanced (codes "a[1], {2}")
    × ((after : Text) × (drop 2 call ≡ codes "a[1], {2}" ++ b')' ∷ after)))
unfolding matching_punctuation
text_inside_iff_example = text_inside_iff call (codes "a[1], {2}") 2 b'(' b')' refl

-- A run of `_GetTextInside` from a position on.
text_inside_run : text_inside call 2 b'(' ≡ some (some (codes "a[1], {2}"))
unfolding text_inside matching_punctuation close_all next_stack
text_inside_run = refl

abbrev indexed : Text
indexed = codes "a[0] = 1;"

close_expression-no_paren_example : close_expression (indexed ∷ []) 0 1 ≡ some (indexed, 0, pos 0)
unfolding matching_punctuation count rfind
close_expression-no_paren_example =
    close_expression-no_paren (indexed ∷ []) 0 1 indexed b'[' b']' refl refl refl refl refl

-- One directory, whose name is empty, with an entry .git.
abbrev flat : Paths
flat = record {
  abspath = λ p. p;
  exists = λ p. p == codes "a.c" || p == codes "/.git";
  dirname = λ p. [];
  join_path = λ p q. p ++ codes "/" ++ q;
  common_prefix = λ p q. p;
  split_path = λ p. ([], p);
  splitext = λ p. (p, []);
  normpath = λ p. p;
}

flat-Shortens : Shortens flat
flat-Shortens [] = inl refl
flat-Shortens (c ∷ dir) = inr (omega arith)

repository_name-Returns_example :
    (start : Text) × (name : Text) × (repository_name 4 flat (codes "a.c") ≡ some name)
    × (full_name flat (codes "a.c") ≡ start ++ name)
unfolding full_name replace
repository_name-Returns_example =
    repository_name-Returns 4 flat (codes "a.c") flat-Shortens
      (λ top e. subst (λ t. has_entry flat ".svn" t ≡ false) e refl) (omega arith)

-- Every file exists, and the directory above all is the empty name.
abbrev crowded : Paths
crowded = record flat { exists = λ p. true }

repository_name-never_example : repository_name 1000 crowded (codes "a.c") ≡ none
repository_name-never_example = repository_name-never 1000 crowded (codes "a.c") refl refl refl refl

files_belong_to_same_module_iff_example :
    (files_belong_to_same_module (codes "/x/base/info_test.c") (codes "base/info-inl.h")
      ≡ (true, codes "/x/"))
    ↔ (source_module (codes "/x/base/info_test.c")
        ≡ codes "/x/" ++ header_module (codes "base/info-inl.h"))
unfolding ends_with header_module replace
files_belong_to_same_module_iff_example =
    files_belong_to_same_module_iff (codes "/x/base/info_test.c") (codes "base/info-inl.h")
      (codes "/x/") refl refl (λ e. ground arith)

abbrev header : List Text
header = codes "#include <b.h>\n" ∷ codes "int f();\n" ∷ []

update_include_state_lem_example :
    ((place : Text)
      → lookup (codes "b.h") initial.includes ≡ some place
      → lookup (codes "b.h") (update_include_state (codes "a.h") (some header) initial).0.includes
        ≡ some place)
    × ((has_key (codes "b.h") (update_include_state (codes "a.h") (some header) initial).0.includes
          ≡ true)
        ↔ ((has_key (codes "b.h") initial.includes ≡ true) ⊎ Listed (codes "b.h") header))
update_include_state_lem_example =
    update_include_state_lem (codes "a.h") header initial (codes "b.h")

abbrev guarded : List Text
guarded = codes "#ifndef A_H_" ∷ codes "#define A_H_" ∷ codes "#endif  // A_H_" ∷ []

check_for_header_guard-unbound_example :
    (check_for_header_guard (codes "a.h") (codes "int x;" ∷ []) ≡ none)
    ↔ (first_directive "#ifndef" (codes "int x;" ∷ []) ≡ none)
check_for_header_guard-unbound_example =
    check_for_header_guard-unbound (codes "a.h") (codes "int x;" ∷ [])

check_for_header_guard_iff_example : (check_for_header_guard (codes "a.h") guarded ≡ some []) ↔ (
    (cppvar : Text) × (first_directive "#ifndef" guarded ≡ some cppvar)
    × (first_directive "#define" guarded ≡ some cppvar)
    × (last_endif guarded ≡ some (endif_line cppvar)))
check_for_header_guard_iff_example = check_for_header_guard_iff (codes "a.h") guarded

-- The guard of that header is found, and it passes.
guarded_run : check_for_header_guard (codes "a.h") guarded ≡ some []
unfolding check_for_header_guard scan_guard read_guard starts_with guard_events
guarded_run = refl

get_previous_non_blank_line_lem_example : Previous (codes "x;" ∷ codes "  " ∷ [] ∷ []) 2
get_previous_non_blank_line_lem_example =
    get_previous_non_blank_line_lem (codes "x;" ∷ codes "  " ∷ [] ∷ []) 2
