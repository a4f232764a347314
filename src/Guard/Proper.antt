-- ===== src/Guard/Proper.antt =====
-- The reports of `CheckForHeaderGuard` are proper.
use dmanix.Base.{ℕ, ◌≡◌, Bool, true, leb, arith, List, Option, none, some, Text, mem_text}
use dmanix.Lint.Categories.{error_categories}
use dmanix.Lint.Proper.{Proper, proper_rules}
use dmanix.Lint.Suppress.Proper.{parse_nolint_suppressions-Proper}
use dmanix.Guard.{
  GuardLines, level_unless, check_guard_style, check_endif, check_guard, check_for_header_guard,
  scan_guard, no_guard,
}

level_le : (b : Bool) → leb (level_unless b) 5 ≡ true
level_le b = ground arith

ruleset guard_rules = (proper_rules, level_le, parse_nolint_suppressions-Proper)

check_guard_style-Proper :
    (filename : Text) (lines : List Text) (cppvar : Text) (linenum : ℕ) (ifndef : Text)
    → Proper filename (check_guard_style filename lines cppvar linenum ifndef)
unfolding check_guard_style mem_text error_categories
check_guard_style-Proper filename lines cppvar linenum ifndef = search guard_rules

check_endif-Proper :
    (filename : Text) (lines : List Text) (cppvar : Text) (linenum : ℕ) (endif : Option Text)
    → Proper filename (check_endif filename lines cppvar linenum endif)
unfolding check_endif mem_text error_categories
check_endif-Proper filename lines cppvar linenum endif = search guard_rules

check_guard-Proper :
    (filename : Text) (lines : List Text) (cppvar : Text) (g : GuardLines)
    (ifndef define : Option Text)
    → Proper filename (check_guard filename lines cppvar g ifndef define)
unfolding mem_text error_categories
check_guard-Proper filename lines cppvar g none define = search proper_rules
check_guard-Proper filename lines cppvar g (some ifndef) none = search proper_rules
check_guard-Proper filename lines cppvar g (some ifndef) (some define) =
    search (proper_rules, check_guard_style-Proper, check_endif-Proper)

pub check_for_header_guard-Proper :
    (filename : Text) (lines : List Text) (cppvar : Text)
    → Proper filename (check_for_header_guard filename lines cppvar)
unfolding check_for_header_guard
check_for_header_guard-Proper filename lines cppvar =
    check_guard-Proper filename lines cppvar (scan_guard 0 lines no_guard) _ _
