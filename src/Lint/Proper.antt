-- ===== src/Lint/Proper.antt =====
-- What every call of `Error` in scripts/cpplint.py keeps to, and the rules for the ways in which the checks build them.
use dmanix.Base.{
  ℕ, ◌≡◌, refl, Bool, true, false, Option, none, some, List, [], ◌∷◌, ◌++◌, Text, String, codes,
  map, All, mem_text, leb, if◌then◌else◌,
}
use dmanix.Regex.Search.{Found}
use dmanix.Lint.{Action, report, suppress}
use dmanix.Lint.Categories.{error_categories}
use dmanix.Lint.Report.{error_if, error_with_group}

abbrev pub IsCategory : Text → Type 0
IsCategory category = mem_text category error_categories ≡ true

-- A call of `error` names the file, a category of the table and a confidence up to 5; a suppression is one of a
-- category of the table or of all.
unfoldable pub IsProper : Text → Action → Type 0
IsProper filename (report f linenum category confidence message) =
    (f ≡ filename) × IsCategory category × (leb confidence 5 ≡ true)
IsProper filename (suppress none linenum) = Unit
IsProper filename (suppress (some category) linenum) = IsCategory category

pub record Proper (filename : Text) (actions : List Action) : Type 0 where
  pub each : All (IsProper filename) actions

append-All :
    (filename : Text) (xs ys : List Action)
    → All (IsProper filename) xs
    → All (IsProper filename) ys
    → All (IsProper filename) (xs ++ ys)
append-All filename [] ys h k = k
append-All filename (a ∷ xs) ys h k = (h.0, append-All filename xs ys h.1 k)

pub nil-Proper : {filename : Text} → Proper filename []
nil-Proper = record { each = tt }

pub cons-Proper :
    {filename : Text} {a : Action} {xs : List Action}
    → IsProper filename a
    → Proper filename xs
    → Proper filename (a ∷ xs)
cons-Proper h k = record { each = (h, k.each) }

pub append-Proper :
    {filename : Text} {xs ys : List Action}
    → Proper filename xs
    → Proper filename ys
    → Proper filename (xs ++ ys)
append-Proper {filename} {xs} {ys} h k = record { each = append-All filename xs ys h.each k.each }

pub if-Proper :
    {filename : Text} (b : Bool) {xs ys : List Action}
    → Proper filename xs
    → Proper filename ys
    → Proper filename (if b then xs else ys)
if-Proper true h k = h
if-Proper false h k = k

-- The same for a pair with a new state, on either side.
pub if_first-Proper :
    {A : Type 0} (filename : Text) (b : Bool) (p q : List Action × A)
    → Proper filename p.0
    → Proper filename q.0
    → Proper filename (if b then p else q).0
if_first-Proper filename true p q h k = h
if_first-Proper filename false p q h k = k

pub if_second-Proper :
    {A : Type 0} (filename : Text) (b : Bool) (p q : A × List Action)
    → Proper filename p.1
    → Proper filename q.1
    → Proper filename (if b then p else q).1
if_second-Proper filename true p q h k = h
if_second-Proper filename false p q h k = k

pub report-IsProper :
    (filename : Text) (linenum : ℕ) (category : Text) (confidence : ℕ) (message : Text)
    → IsCategory category
    → leb confidence 5 ≡ true
    → IsProper filename (report filename linenum category confidence message)
unfolding IsProper
report-IsProper filename linenum category confidence message c l = (refl, c, l)

pub error_if-Proper :
    (b : Bool) (filename : Text) (linenum : ℕ) (category : String) (confidence : ℕ) (message : Text)
    → IsCategory (codes category)
    → leb confidence 5 ≡ true
    → Proper filename (error_if b filename linenum category confidence message)
unfolding error_if
error_if-Proper true filename linenum category confidence message c l =
    cons-Proper (report-IsProper filename linenum (codes category) confidence message c l)
      nil-Proper
error_if-Proper false filename linenum category confidence message c l = nil-Proper

pub error_with_group-Proper :
    (filename : Text) (linenum : ℕ) (category : String) (confidence : ℕ) (message : String)
    (m : Option Found)
    → IsCategory (codes category)
    → leb confidence 5 ≡ true
    → Proper filename (error_with_group filename linenum category confidence message m)
unfolding error_with_group
error_with_group-Proper filename linenum category confidence message (some m) c l =
    cons-Proper (report-IsProper filename linenum (codes category) confidence _ c l) nil-Proper
error_with_group-Proper filename linenum category confidence message none c l = nil-Proper

pub map-Proper :
    (filename : Text) {A : Type 0} (f : A → Action) (xs : List A)
    → ((x : A) → IsProper filename (f x))
    → Proper filename (map f xs)
map-Proper filename f [] h = nil-Proper
map-Proper filename f (x ∷ xs) h = cons-Proper (h x) (map-Proper filename f xs h)

-- The reports of a loop that may not end, and of a step that also gives a new state.
abbrev pub ProperIfSome : Text → Option (List Action) → Type 0
ProperIfSome filename none = Unit
ProperIfSome filename (some actions) = Proper filename actions

abbrev pub ProperStep : {A : Type 0} → Text → Option (A × List Action) → Type 0
ProperStep filename none = Unit
ProperStep filename (some (_, actions)) = Proper filename actions

pub if-ProperStep :
    {A : Type 0} (filename : Text) (b : Bool) (p q : Option (A × List Action))
    → ProperStep filename p
    → ProperStep filename q
    → ProperStep filename (if b then p else q)
if-ProperStep filename true p q h k = h
if-ProperStep filename false p q h k = k

pub ruleset proper_rules = (
  nil-Proper, cons-Proper, append-Proper, if-Proper, report-IsProper, error_if-Proper,
  error_with_group-Proper,
)
