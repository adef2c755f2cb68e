-- ===== src/Report/Lines.antt =====
-- clint.py: lists of reports that are all on one line.
use dlmalloc.Prelude.{
  ℕ, ◌≡◌, refl, Bool, true, false, List, [], ◌∷◌, ◌++◌, Option, none, some, pos, if◌then◌else◌,
}
use dlmalloc.Text.{Text}
use dlmalloc.Report.{Diagnostic, Event, report, error, when}

-- All the events are reports on this line.
pub data AllAt (n : ℕ) : List Event → Type 0 where
  nil : AllAt n []
  cons :
      (d : Diagnostic) (events : List Event)
      → d.linenum ≡ pos n
      → AllAt n events
      → AllAt n (report d ∷ events)

pub AllAt-error :
    (n : ℕ) (filename category message : Text) (confidence : ℕ)
    → AllAt n (error filename n category confidence message ∷ [])
AllAt-error n filename category message confidence = cons _ [] refl nil

pub AllAt-append : {n : ℕ} (a b : List Event) → AllAt n a → AllAt n b → AllAt n (a ++ b)
AllAt-append _ b nil h = h
AllAt-append _ b (cons d events e k) h = cons d (events ++ b) e (AllAt-append events b k h)

pub AllAt-when : {n : ℕ} (test : Bool) (a : List Event) → AllAt n a → AllAt n (when test a)
AllAt-when true a h = h
AllAt-when false a h = nil

pub AllAt-if :
    {n : ℕ} (test : Bool) (a b : List Event)
    → AllAt n a
    → AllAt n b
    → AllAt n (if test then a else b)
AllAt-if true a b h k = h
AllAt-if false a b h k = k

pub ruleset at_rules = (nil, AllAt-error, AllAt-append, AllAt-when, AllAt-if)

pub AllAt-option :
    {A : Type 0} {n : ℕ} (o : Option A) (f : A → List Event)
    → ((a : A) → AllAt n (f a))
    → AllAt n (elim o [ none ↦ [] | some a ↦ f a ])
AllAt-option none f h = nil
AllAt-option (some a) f h = h a
