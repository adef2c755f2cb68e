-- ===== src/Classes.antt =====
-- clint.py: class declarations. `_ClassState` is a stack of `_ClassInfo`, here with its innermost
-- class first. The handler `CheckForNonStandardConstructs` moves it on by one line.
pub mod Constructs
pub mod Stack
pub mod Sections
use dlmalloc.Prelude.{
  ℕ, zero, suc, ◌+◌, ◌-◌, Bool, true, false, not, ◌&&◌, ◌||◌, List, [], ◌∷◌, ◌++◌, Option, none,
  some, ◌==◌, nat_eq, text_eq, if◌then◌else◌, leb, drop, take,
}
use mathlib.Core.Option
use dlmalloc.Text.{Text, codes, count, find, rfind, occurs, strip}
use dlmalloc.Regex.{
  Regex, ◌⨾◌, ◌⊕◌, star, group, line_start, line_end, word_edge, match, matches, found, group_of,
}
use dlmalloc.Regex.Patterns.{
  lit, literally, one_of, none_of, spaces, singles, words, space, plus, opt,
}
use dlmalloc.Report.{Event, error, when, show}

-- `_ClassInfo`. A class stays on the stack while its depth is above 0, so a number holds it.
pub record ClassInfo : Type 0 where
  pub name : Text
  pub linenum : ℕ
  pub seen_open_brace : Bool
  pub is_derived : Bool
  pub virtual_method_linenumber : Option ℕ
  pub has_virtual_destructor : Bool
  pub brace_depth : ℕ
  pub last_line : ℕ

-- The first line, from line `i` on, behind which the braces are even; 0 if there is none.
unfoldable pub find_last_line : List Text → ℕ → ℕ → ℕ → ℕ
find_last_line [] i opened closed = 0
find_last_line (line ∷ lines) i opened closed =
    let opened' = opened + count line (codes "{") in
    let closed' = closed + count line (codes "}") in
    let later = find_last_line lines (i + 1) opened' closed' in
    if opened' == closed' then i else later

-- `_ClassInfo.__init__`, on `clean_lines.lines`
unfoldable pub new_class : Text → List Text → ℕ → ClassInfo
new_class name lines linenum = record {
  name = name;
  linenum = linenum;
  seen_open_brace = false;
  is_derived = false;
  virtual_method_linenumber = none;
  has_virtual_destructor = false;
  brace_depth = 0;
  last_line = find_last_line (drop linenum lines) linenum 0 0;
}

-- \s*(template\s*<[\w\s<>,:]*>\s*)?(class|struct)\s+([A-Z_]+\s+)*(\w+(::\w+)*)
abbrev pub re_class_declaration : Regex
re_class_declaration =
    star space
    ⨾ opt (
        group 1 (
          lit "template"
          ⨾ star space
          ⨾ lit "<"
          ⨾ star (one_of (words ++ spaces ++ singles "<>,:"))
          ⨾ lit ">"
          ⨾ star space))
    ⨾ group 2 (lit "class" ⊕ lit "struct")
    ⨾ plus space
    ⨾ star (group 3 (plus (one_of (((b'A', b'Z') ∷ []) ++ singles "_")) ⨾ plus space))
    ⨾ group 4 (plus (one_of words) ⨾ star (group 5 (lit "::" ⨾ plus (one_of words))))

-- (^|[^:]):($|[^:])
abbrev pub re_bare_colon : Regex
re_bare_colon =
    group 1 (line_start ⊕ none_of (singles ":"))
    ⨾ lit ":"
    ⨾ group 2 (line_end ⊕ none_of (singles ":"))

-- \bvirtual\b
abbrev pub re_virtual : Regex
re_virtual = word_edge ⨾ lit "virtual" ⨾ word_edge

-- \s+(?:inline\s+)?NAME\s*\(([^,()]+)\)
unfoldable pub re_constructor : Text → Regex
re_constructor name =
    plus space
    ⨾ opt (lit "inline" ⨾ plus space)
    ⨾ literally name
    ⨾ star space
    ⨾ lit "("
    ⨾ group 1 (plus (none_of (singles ",()")))
    ⨾ lit ")"

-- (const\s+)?NAME\s*(?:<\w+>\s*)?&
unfoldable pub re_reference : Text → Regex
re_reference name =
    opt (group 1 (lit "const" ⨾ plus space))
    ⨾ literally name
    ⨾ star space
    ⨾ opt (lit "<" ⨾ plus (one_of words) ⨾ lit ">" ⨾ star space)
    ⨾ lit "&"

-- ~NAME\s*\(
unfoldable pub re_destructor : Text → Regex
re_destructor name = lit "~" ⨾ literally name ⨾ star space ⨾ lit "("

-- The name of the class that the line declares, `match.group(4)`.
unfoldable pub declared_class : Text → Option Text
declared_class line = elim (match re_class_declaration line) [
  | none ↦ none
  | some t ↦ group_of 4 t.groups
]

-- A line with a class declaration puts it on the stack.
unfoldable pub push_class : List Text → ℕ → Text → List ClassInfo → List ClassInfo
push_class lines linenum line stack = elim (declared_class line) [
  | none ↦ stack
  | some name ↦ new_class name lines linenum ∷ stack
]

-- What the line does to a class whose opening brace was not seen.
pub data Opening : Type 0 where
  dropped : Opening
  waiting entered : ClassInfo → Opening

unfoldable pub look_for_brace : Text → ClassInfo → ClassInfo
look_for_brace line classinfo = record classinfo {
  seen_open_brace = occurs (codes "{") line;
  is_derived = found re_bare_colon line || classinfo.is_derived;
}

abbrev pub opened_or_waiting : ClassInfo → Opening
opened_or_waiting c = if c.seen_open_brace then entered c else waiting c

unfoldable pub open_class : Text → ClassInfo → Opening
open_class line classinfo =
    if classinfo.seen_open_brace
    then entered classinfo
    else if occurs (codes ";") line
    then dropped
    else opened_or_waiting (look_for_brace line classinfo)

-- `name.split('::')[-1]`
unfoldable pub base_classname : Text → Text
base_classname name = elim (rfind name (codes "::")) [ none ↦ name | some i ↦ drop (i + 2) name ]

-- The check on constructors with one argument.
unfoldable pub check_explicit : Text → ℕ → Text → Text → List Event
check_explicit filename linenum line base = elim (match (re_constructor base) line) [
  | none ↦ []
  | some t ↦ elim (group_of 1 t.groups) [
    | none ↦ []
    | some args ↦
        when (not (args == codes "void") && not (matches (re_reference base) (strip args))) (
          error filename linenum (codes "runtime/explicit") 5
            (codes "Single-argument constructors should be marked explicit.")
          ∷ [])
  ]
]

-- Virtual methods and destructors.
unfoldable pub note_virtual : ℕ → Text → Text → ClassInfo → ClassInfo
note_virtual linenum line base classinfo =
    if found re_virtual line
    then record classinfo {
      virtual_method_linenumber = some linenum;
      has_virtual_destructor = found (re_destructor base) line || classinfo.has_virtual_destructor;
    }
    else classinfo

-- The report on a class that ends.
unfoldable pub check_virtual : Text → ClassInfo → List Event
check_virtual filename classinfo = elim classinfo.virtual_method_linenumber [
  | none ↦ []
  | some virtual_line ↦ when (not classinfo.has_virtual_destructor && not classinfo.is_derived) (
      error filename classinfo.linenum (codes "runtime/virtual") 4 (
        codes "The class "
        ++ classinfo.name
        ++ codes " probably needs a virtual destructor due to "
        ++ codes "having virtual method(s), one declared at line "
        ++ show virtual_line
        ++ codes ".")
      ∷ [])
]

-- The end of the handler: braces are counted, and the class leaves the stack if it ends.
unfoldable pub count_braces : Text → Text → ClassInfo → List ClassInfo → List ClassInfo × List Event
count_braces filename line classinfo outer =
    let opened = classinfo.brace_depth + count line (codes "{") in
    let closed = count line (codes "}") in
    if leb opened closed
    then (outer, check_virtual filename classinfo)
    else (record classinfo { brace_depth = opened - closed } ∷ outer, [])

-- What the handler does with the innermost class.
unfoldable pub track_class :
    Text → ℕ → Text → ClassInfo → List ClassInfo → List ClassInfo × List Event
track_class filename linenum line classinfo outer = elim (open_class line classinfo) [
  | dropped ↦ (outer, [])
  | waiting info ↦ (info ∷ outer, [])
  | entered info ↦
      let base = base_classname info.name in
      let (stack, events) =
        count_braces filename line (note_virtual linenum line base info) outer in
      (stack, check_explicit filename linenum line base ++ events)
]

-- With no class on the stack nothing is left to do.
unfoldable pub track_top : Text → ℕ → Text → List ClassInfo → List ClassInfo × List Event
track_top filename linenum line [] = ([], [])
track_top filename linenum line (classinfo ∷ outer) =
    track_class filename linenum line classinfo outer

-- The part of CheckForNonStandardConstructs that tracks classes, on `clean_lines.lines` and on
-- `line`, which is `elided[linenum]`.
unfoldable pub track_classes :
    Text → List Text → ℕ → Text → List ClassInfo → List ClassInfo × List Event
track_classes filename lines linenum line stack =
    track_top filename linenum line (push_class lines linenum line stack)

-- The outermost class: `classinfo_stack[0]`
abbrev pub outermost : ClassInfo → List ClassInfo → ClassInfo
outermost classinfo [] = classinfo
outermost classinfo (outer ∷ stack) = outermost outer stack

-- `CheckFinished`
unfoldable pub check_finished : Text → List ClassInfo → List Event
check_finished filename [] = []
check_finished filename (classinfo ∷ stack) =
    let bottom = outermost classinfo stack in
    error filename bottom.linenum (codes "build/class") 5
      (codes "Failed to find complete declaration of class " ++ bottom.name)
    ∷ []
