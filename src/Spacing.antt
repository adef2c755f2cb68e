-- ===== src/Spacing.antt =====
-- clint.py: `CheckSpacing` with `CheckComment` and `CheckSpacingForFunctionCall` in its children.
pub mod Blank
pub mod Comments
pub mod Calls
pub mod Operators
pub mod Lines
use dlmalloc.Prelude.{ℕ, List, [], ◌++◌, get_or, if◌then◌else◌}
use dlmalloc.Text.{Text, codes}
use dlmalloc.Report.{Event}
use dlmalloc.LineChecks.{is_blank_line}
use dlmalloc.Cleanse.{CleansedLines}
use dlmalloc.Spacing.Blank.{check_blank_line}
use dlmalloc.Spacing.Comments.{check_comment_spacing}
use dlmalloc.Spacing.Operators.{check_operators, check_separators, without_operators}
use dlmalloc.Spacing.Calls.{check_spacing_for_function_call, check_braces_and_semicolons}

-- `CheckSpacing`
unfoldable pub check_spacing : Text → CleansedLines → ℕ → List Event
check_spacing filename clean_lines linenum =
    let raw = get_or clean_lines.raw_lines linenum [] in
    let line = without_operators (get_or clean_lines.elided linenum []) in
    (if is_blank_line raw then check_blank_line filename clean_lines linenum else [])
    ++ check_comment_spacing filename raw linenum
    ++ check_operators filename line linenum
    ++ check_separators filename line linenum
    ++ check_spacing_for_function_call filename line linenum
    ++ check_braces_and_semicolons filename line linenum
