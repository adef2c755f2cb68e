-- ===== src/Options/Usage.antt =====
-- clint.py, `_USAGE`.
use dlmalloc.Prelude.{◌++◌}
use dlmalloc.Text.{Text, codes}

-- `_USAGE`, the text that PrintUsage writes.
unfoldable pub usage : Text
usage =
    codes "\n"
    ++ codes "Syntax: cpplint.py [--verbose=#] [--output=vs7] [--filter=-x,+y,...]\n"
    ++ codes "                   [--counting=total|toplevel|detailed]\n"
    ++ codes "        <file> [file] ...\n"
    ++ codes "\n"
    ++ codes "  The style guidelines this tries to follow are those in\n"
    ++ codes "    http://google-styleguide.googlecode.com/svn/trunk/cppguide.xml\n"
    ++ codes "\n"
    ++ codes "  Every problem is given a confidence score from 1-5, with 5 meaning we are\n"
    ++ codes "  certain of the problem, and 1 meaning it could be a legitimate construct.\n"
    ++ codes "  This will miss some errors, and is not a substitute for a code review.\n"
    ++ codes "\n"
    ++ codes "  To suppress false-positive errors of a certain category, add a\n"
    ++ codes "  'NOLINT(category)' comment to the line.  NOLINT or NOLINT(*)\n"
    ++ codes "  suppresses errors of all categories on that line.\n"
    ++ codes "\n"
    ++ codes "  The files passed in will be linted; at least one file must be provided.\n"
    ++ codes "  Linted extensions are .c, .cpp, and .h.  Other file types will be ignored.\n"
    ++ codes "\n"
    ++ codes "  Flags:\n"
    ++ codes "\n"
    ++ codes "    output=vs7\n"
    ++ codes "      By default, the output is formatted to ease emacs parsing.  Visual Studio\n"
    ++ codes "      compatible output (vs7) may also be used.  Other formats are unsupported.\n"
    ++ codes "\n"
    ++ codes "    verbose=#\n"
    ++ codes "      Specify a number 0-5 to restrict errors to certain verbosity levels.\n"
    ++ codes "\n"
    ++ codes "    filter=-x,+y,...\n"
    ++ codes "      Specify a comma-separated list of category-filters to apply: only\n"
    ++ codes "      error messages whose category names pass the filters will be printed.\n"
    ++ codes "      (Category names are printed with the message and look like\n"
    ++ codes "      \"[whitespace/indent]\".)  Filters are evaluated left to right.\n"
    ++ codes "      \"-FOO\" and \"FOO\" means \"do not print categories that start with FOO\".\n"
    ++ codes "      \"+FOO\" means \"do print categories that start with FOO\".\n"
    ++ codes "\n"
    ++ codes "      Examples: --filter=-whitespace,+whitespace/braces\n"
    ++ codes "                --filter=whitespace,runtime/printf,+runtime/printf_format\n"
    ++ codes "                --filter=-,+build/include_what_you_use\n"
    ++ codes "\n"
    ++ codes "      To see a list of all the categories used in cpplint, pass no arg:\n"
    ++ codes "         --filter=\n"
    ++ codes "\n"
    ++ codes "    counting=total|toplevel|detailed\n"
    ++ codes "      The total number of errors found is always printed. If\n"
    ++ codes "      'toplevel' is provided, then the count of errors in each of\n"
    ++ codes "      the top-level categories like 'build' and 'whitespace' will\n"
    ++ codes "      also be printed. If 'detailed' is provided, then a count\n"
    ++ codes "      is provided for each category like 'build/class'.\n"
