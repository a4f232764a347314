-- ===== src/Functions/Proper.antt =====
-- The reports of `CheckForFunctionLengths` are proper.
use dmanix.Base.{
  ℕ, ◌≡◌, leb, ltb, arith, Bool, true, false, Option, none, some, List, [], ◌∷◌, Text, codes,
  mem_text, if◌then◌else◌, ◌/◌, ◌==◌,
}
use dmanix.Base.Int.{ℤ}
use dmanix.Lint.{Action, report}
use dmanix.Lint.Categories.{error_categories}
use dmanix.Lint.Proper.{Proper, nil-Proper, ProperIfSome, proper_rules}
use dmanix.Lines.{CleansedLines}
use dmanix.Functions.{
  FunctionState, base_trigger, trigger, error_level, size_message, check_function,
}
use dmanix.Functions.Lines.{LengthOutcome, no_body, with_state, check_for_function_lengths}

if-ProperIfSome :
    (filename : Text) (b : Bool) (p q : Option (List Action))
    → ProperIfSome filename p
    → ProperIfSome filename q
    → ProperIfSome filename (if b then p else q)
if-ProperIfSome filename true p q h k = h
if-ProperIfSome filename false p q h k = k

error_level_le : (s : FunctionState) → leb (error_level s) 5 ≡ true
unfolding error_level
error_level_le s = ground arith

check_function-Proper :
    (filename : Text) (linenum : ℕ) (verbose_level : ℤ) (s : FunctionState)
    → ProperIfSome filename (check_function filename linenum verbose_level s)
unfolding check_function mem_text error_categories
check_function-Proper filename linenum verbose_level s =
    let long : Proper filename (
        report filename linenum (codes "readability/fn_size") (error_level s)
          (size_message verbose_level s)
        ∷ []) =
      search (proper_rules, error_level_le) in
    if-ProperIfSome filename (ltb (trigger verbose_level s) s.lines_in_function) _ (some [])
      (if-ProperIfSome filename (s.lines_in_function / base_trigger s == 0) none (some _) tt long)
      nil-Proper

-- The reports of the check, where it raises no exception.
abbrev pub LengthProper : Text → LengthOutcome → Type 0
LengthProper filename none = Unit
LengthProper filename (some (actions, _)) = Proper filename actions

no_body-Proper :
    (filename : Text) (linenum : ℕ) (r : FunctionState × Bool)
    → LengthProper filename (no_body filename linenum r)
unfolding mem_text error_categories
no_body-Proper filename linenum (s, true) = nil-Proper
no_body-Proper filename linenum (s, false) = search proper_rules

with_state-Proper :
    (filename : Text) (s : FunctionState) (o : Option (List Action))
    → ProperIfSome filename o
    → LengthProper filename (with_state s o)
with_state-Proper filename s none p = tt
with_state-Proper filename s (some actions) p = p

none_now-Proper : (filename : Text) (s : FunctionState) → LengthProper filename (some ([], s))
none_now-Proper filename s = nil-Proper

if-LengthProper :
    (filename : Text) (b : Bool) (p q : LengthOutcome)
    → LengthProper filename p
    → LengthProper filename q
    → LengthProper filename (if b then p else q)
if-LengthProper filename true p q h k = h
if-LengthProper filename false p q h k = k

pub check_for_function_lengths-Proper :
    (filename : Text) (clean : CleansedLines) (linenum : ℕ) (verbose_level : ℤ) (s : FunctionState)
    → LengthProper filename (check_for_function_lengths filename clean linenum verbose_level s)
unfolding check_for_function_lengths
check_for_function_lengths-Proper filename clean linenum verbose_level s =
    search
      (if-LengthProper, no_body-Proper, with_state-Proper, none_now-Proper, check_function-Proper)
