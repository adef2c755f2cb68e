-- ===== src/Tests/Setup.antt =====
-- A machine with a few files, on which the tests run.
use dlmalloc.Prelude.{false, [], ◌++◌, Option, none, some, ◌==◌, text_eq, ◌||◌, if◌then◌else◌}
use dlmalloc.Text.{Text, codes}
use dlmalloc.Unicode.{Unicode}
use dlmalloc.LintState.{initial}
use dlmalloc.Session.{Session}
use dlmalloc.FileNames.{Paths}
use dlmalloc.Driver.Lines.{Machine}

abbrev pub ascii : Unicode
ascii = record { wide_lower = λ c. c; wide_upper = λ c. c; wide_alnum = λ c. false }

abbrev pub flat : Paths
flat = record {
  abspath = λ p. p;
  exists = λ p. p == codes "a.c" || p == codes "/.git";
  dirname = λ p. [];
  join_path = λ p q. p ++ codes "/" ++ q;
  common_prefix = λ p q. p;
  split_path = λ p. ([], p);
  splitext = λ p. (p, []);
  normpath = λ p. p;
}

abbrev pub files : Text → Option Text
files filename =
    if filename == codes "a.c"
    then some (codes "int x;\n")
    else if filename == codes "a.txt"
    then some (codes "text")
    else none

abbrev pub machine : Machine
machine = record {
  unicode = ascii;
  widths = record { normalize = λ s. s; is_wide = λ c. false; is_combining = λ c. false };
  paths = flat;
  surroundings = record { open_header = λ s. none; key_order = λ keys. keys };
  read_file = files;
  linesep = codes "\n";
}

abbrev pub session : Session
session = record { lint = initial; suppressions = []; stderr = [] }
