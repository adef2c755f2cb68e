-- ===== src/Lib.antt =====
-- clint.py, the lint program that the repository runs over its C sources, and
-- mymalloc/opentuner_run.py, which tunes the parameters of its allocator.
--
-- The lint program reads each file, removes comments that span lines, keeps three copies of
-- each line (raw, without comments, without comments and strings), and runs a list of checks on
-- each line. A check calls an error handler with a category, a confidence and a message. The handler
-- drops an error for which the line has a NOLINT comment, whose confidence is below --verbose, or
-- which the filters exclude; otherwise it prints and counts it.
--
-- Files:
--   Prelude     shared names, Boolean tests, lists, Python's integers and dicts
--   Text        Python's methods on text; a text is the list of its code points
--   Unicode     character tables beyond ASCII, a parameter
--   Regex       the part of Python's re that the program uses, as a matcher
--   Regex/Cache Match and Search with _regexp_compile_cache
--   Report      error categories, diagnostics, and the events that a check returns
--   LintState   class _CppLintState
--   Nolint      ParseNolintSuppressions, IsErrorSuppressedByNolint
--   Session     the module's global state, _ShouldPrintError and Error
--   IncludeState   class _IncludeState
--   FunctionState  class _FunctionState, CheckForFunctionLengths
--   Cleanse     RemoveMultiLineComments, CleanseComments, class CleansedLines
--   Brackets    _GetTextInside, CloseExpression
--   FileNames   class FileInfo, and what is read off the names of files
--   Includes    _ClassifyInclude, CheckIncludeLine, UpdateIncludeState
--   FileChecks  copyright, header guard, replacement characters, newline at the end
--   LineChecks  checks of one line, IsBlankLine, GetPreviousNonBlankLine
--   Options     ParseArguments, PrintUsage, PrintCategories
--   Braces      CheckBraces
--   MacroChecks _CHECK_REPLACEMENT, ReplaceableCheck, CheckCheck
--   Classes     class _ClassInfo, class _ClassState, CheckForNonStandardConstructs,
--               CheckSectionSpacing
--   Spacing     CheckSpacing, CheckSpacingForFunctionCall, CheckComment
--   Style       CheckStyle, GetLineWidth, GetHeaderGuardCPPVariable
--   Language    CheckLanguage, CheckCStyleCast
--   WhatYouUse  CheckForIncludeWhatYouUse
--   Driver      ProcessLine, ProcessFileData, ProcessFile, main
--   Tuner       mymalloc/opentuner_run.py, mymalloc/opentuner_params.py
--   Tests       runs on concrete inputs, and the theorems at concrete inputs
--
-- All but Tuner model clint.py. A Python function SomeName is the definition some_name. A check takes
-- the lines that the program gives it and returns its events in order: calls of the error handler,
-- and the lines that NOLINT comments suppress. Session runs events on the global state. A result
-- `none` stands for an exception, for None, or for the -1 of find, as each definition says.
--
-- Bounds and fuel: the loop of RemoveMultiLineComments runs on one more than the number of lines,
-- and the repetitions of a pattern on the number of characters left; both are enough. A
-- pattern's repetition takes no round that reads nothing. sub runs on the number of characters left,
-- of which each round takes at least one. The loops of RepositoryName run on fuel that the caller
-- gives; more than the length of the full name is enough, unless the root has an entry
-- .svn. The loop in which CheckBraces joins lines runs on the same fuel; two more than the number
-- of the line are enough where it ends at all. Driver takes one fuel for all these loops.
--
-- The tuner's runs are steps on its state, one at a time: the source takes a lock around the one
-- section that its threads share. A run gets what call_program returns as a function of the command.
--
-- Parameters: re, where Match and Search are modelled with their cache (the checks run their
-- patterns on the matcher of Regex, without the cache), the tables of unicodedata, os.path and the
-- tree of files, the text of the files that are read, the order in which a dict gives its keys
-- (elsewhere it is the order of insertion), getopt, floats with their comparison, and the library
-- opentuner.
--
-- Not modelled: reading and decoding files and writing to stderr as such, the sequence of writes
-- before an exception that ends the program, the code of CheckCStyleCast behind its first return,
-- the C allocator in mymalloc and the C programs that drive it.
pub mod Prelude
pub mod Text
pub mod Regex
pub mod Report
pub mod LintState
pub mod Nolint
pub mod Session
pub mod Unicode
pub mod IncludeState
pub mod FunctionState
pub mod Cleanse
pub mod Brackets
pub mod FileNames
pub mod Includes
pub mod FileChecks
pub mod LineChecks
pub mod Options
pub mod Braces
pub mod MacroChecks
pub mod Classes
pub mod Spacing
pub mod Style
pub mod Language
pub mod WhatYouUse
pub mod Driver
pub mod Tuner
mod Tests
