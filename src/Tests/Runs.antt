-- ===== src/Tests/Runs.antt =====
-- The theorems on the lines of a file and on a whole run, on a small file.
use dlmalloc.Braces.{check_braces, check_else_braces, join_lines}
use dlmalloc.Regex.{found, matches, search_in, sub}
use dlmalloc.Prelude.{
  ◌≡◌, ◌↔◌, ◌<◌, ◌+◌, refl, Bool, true, false, List, [], ◌∷◌, none, some, pos, length, text_eq,
}
use dlmalloc.Text.{Text, codes, ends_with, starts_with, rfind}
use dlmalloc.LintState.{
  LintState, initial, print_error_counts, set_filters, set_counting_style, set_output_format,
  set_verbose_level,
}
use dlmalloc.Report.{Event}
use dlmalloc.Session.{Session}
use dlmalloc.Cleanse.{CleansedLines}
use dlmalloc.Classes.{ClassInfo}
use dlmalloc.Classes.Stack.{StackOk}
use dlmalloc.Style.{check_style, check_length, header_guard_test}
use dlmalloc.Driver.{strip_returns, file_extension_of}
use dlmalloc.Driver.{lint_files}
use dlmalloc.Driver.Lines.{Machine, LineState, fresh, process_lines}
use dlmalloc.Driver.Classes.{process_lines-Ok}
use dlmalloc.Driver.Status.{is_checked}
use dlmalloc.Driver.{main}
use dlmalloc.Driver.Main.{main-Counted}
use dlmalloc.Options.{done, read_options, parse_arguments, store_options, with_files}
use dlmalloc.Tests.Setup.{machine, session}

checked : is_checked machine 10 (pos 1) (codes "a.c") ≡ true
unfolding dlmalloc.Braces.check_braces dlmalloc.Braces.check_else_braces dlmalloc.Braces.join_lines
    dlmalloc.Brackets.get_text_inside dlmalloc.Cleanse.cleanse_comments
    dlmalloc.Cleanse.cleansed_lines dlmalloc.Cleanse.collapse_strings
    dlmalloc.Cleanse.find_next_multi_line_comment_start dlmalloc.Cleanse.first_line
    dlmalloc.Cleanse.is_cpp_string dlmalloc.Cleanse.opens_comment
    dlmalloc.Cleanse.remove_multi_line_comments dlmalloc.Driver.Status.is_checked
    dlmalloc.Driver.Lines.check_lines dlmalloc.Driver.drop_returns dlmalloc.Driver.Lines.file_events
    dlmalloc.Driver.file_extension_of dlmalloc.Driver.Lines.process_line
    dlmalloc.Driver.Lines.process_lines dlmalloc.Driver.strip_returns
    dlmalloc.FunctionState.check_for_function_lengths dlmalloc.Language.Functions.check_printf
    dlmalloc.Language.check_code dlmalloc.Language.check_language dlmalloc.Regex.found
    dlmalloc.Style.check_style dlmalloc.Style.header_guard_test dlmalloc.Text.rfind
    dlmalloc.Text.split
checked = refl

abbrev filenames : List Text
filenames = codes "a.c" ∷ codes "a.txt" ∷ codes "b.c" ∷ []

-- The options are all left at what they are.
abbrev accepted : LintState
accepted = record initial { counting = [] }

main-Counted_example :
    (t : Session) × (status : Bool) × (main machine 10 (some ([], filenames)) session
      ≡ done (some (t, status)))
    × (length t.stderr ≡ 0 + t.lint.error_count + 4 + length (print_error_counts t.lint))
    × ((status ≡ true) ↔ (0 < t.lint.error_count))
unfolding parse_arguments read_options with_files store_options set_filters starts_with
    set_counting_style set_verbose_level set_output_format is_checked file_extension_of rfind
main-Counted_example =
    main-Counted machine 10 [] filenames filenames session accepted refl
      (checked, (refl, (refl, tt)))

abbrev lines_of_class : List Text
lines_of_class = codes "class A {" ∷ codes "  virtual int f(int x) = 0;" ∷ []

abbrev class_lines : CleansedLines
class_lines = record {
  elided = lines_of_class;
  lines = lines_of_class;
  raw_lines = lines_of_class;
  num_lines = 2;
}

abbrev reached : LineState × List Event
reached = elim (process_lines machine 10 (pos 1) (codes "a.c") (codes "c") class_lines 0 2 fresh) [
  | none ↦ (fresh, [])
  | some r ↦ r
]

-- One class, whose brace is open.
abbrev open_stack : List ClassInfo
open_stack =
    record {
      name = codes "A";
      linenum = 0;
      seen_open_brace = true;
      is_derived = false;
      virtual_method_linenumber = some 1;
      has_virtual_destructor = false;
      brace_depth = 1;
      last_line = 0;
    }
    ∷ []

process_lines-Ok_example : StackOk 2 reached.0.class_state
unfolding dlmalloc.Braces.check_braces dlmalloc.Braces.check_else_braces dlmalloc.Braces.join_lines
    dlmalloc.Brackets.get_text_inside dlmalloc.Driver.Lines.process_line
    dlmalloc.Driver.Lines.process_lines dlmalloc.FunctionState.base_trigger
    dlmalloc.FunctionState.check_for_function_lengths dlmalloc.Language.Functions.check_printf
    dlmalloc.Language.check_code dlmalloc.Language.check_language dlmalloc.Regex.found
    dlmalloc.Style.check_style dlmalloc.Style.header_guard_test
process_lines-Ok_example =
    process_lines-Ok machine 10 (pos 1) (codes "a.c") (codes "c") class_lines 2 reached.0 reached.1
      refl

-- The stack behind the two lines.
process_lines_run : reached.0.class_state ≡ open_stack
unfolding dlmalloc.Braces.check_braces dlmalloc.Braces.check_else_braces dlmalloc.Braces.join_lines
    dlmalloc.Brackets.get_text_inside dlmalloc.Classes.Constructs.check_for_non_standard_constructs
    dlmalloc.Classes.count_braces dlmalloc.Classes.declared_class dlmalloc.Classes.find_last_line
    dlmalloc.Classes.look_for_brace dlmalloc.Classes.new_class dlmalloc.Classes.note_virtual
    dlmalloc.Classes.open_class dlmalloc.Classes.push_class dlmalloc.Classes.re_destructor
    dlmalloc.Classes.track_class dlmalloc.Classes.track_classes dlmalloc.Classes.track_top
    dlmalloc.Driver.Lines.process_line dlmalloc.Driver.Lines.process_lines
    dlmalloc.FunctionState.base_trigger dlmalloc.FunctionState.check_for_function_lengths
    dlmalloc.Language.Functions.check_printf dlmalloc.Language.check_code
    dlmalloc.Language.check_language dlmalloc.Regex.found dlmalloc.Style.check_style
    dlmalloc.Style.header_guard_test dlmalloc.Text.count dlmalloc.Text.occurs
process_lines_run = refl
