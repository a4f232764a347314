-- ===== src/Constructs/Proper.antt =====
-- The reports of `CheckForNonStandardConstructs` are proper.
use dmanix.Base.{ℕ, Option, none, some, Text, mem_text}
use dmanix.Lint.Categories.{error_categories}
use dmanix.Lint.Proper.{Proper, nil-Proper, proper_rules}
use dmanix.Lines.{CleansedLines}
use dmanix.Nesting.{ClassInfo, NestingState}
use dmanix.Constructs.{
  check_formats, check_declarations, check_constructor, constructors_of,
  check_for_non_standard_constructs,
}

check_formats-Proper :
    (filename : Text) (linenum : ℕ) (line : Text)
    → Proper filename (check_formats filename linenum line)
unfolding check_formats mem_text error_categories
check_formats-Proper filename linenum line = search proper_rules

check_declarations-Proper :
    (filename : Text) (linenum : ℕ) (line : Text)
    → Proper filename (check_declarations filename linenum line)
unfolding check_declarations mem_text error_categories
check_declarations-Proper filename linenum line = search proper_rules depth 8

constructors_of-Proper :
    (filename : Text) (linenum : ℕ) (line : Text) (classinfo : Option ClassInfo)
    → Proper filename (constructors_of filename linenum line classinfo)
unfolding check_constructor mem_text error_categories
constructors_of-Proper filename linenum line none = nil-Proper
constructors_of-Proper filename linenum line (some classinfo) = search proper_rules

pub check_for_non_standard_constructs-Proper :
    (filename : Text) (clean : CleansedLines) (linenum : ℕ) (nesting_state : NestingState)
    → Proper filename (check_for_non_standard_constructs filename clean linenum nesting_state)
unfolding check_for_non_standard_constructs
check_for_non_standard_constructs-Proper filename clean linenum nesting_state =
    search (proper_rules, check_formats-Proper, check_declarations-Proper, constructors_of-Proper)
