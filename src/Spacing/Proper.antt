-- ===== src/Spacing/Proper.antt =====
-- Every report of `CheckSpacing` is proper.
use dmanix.Base.{ℕ, Option, none, some, Text, find, codes, mem_text}
use dmanix.Regex.Search.{Found}
use dmanix.Lint.Categories.{error_categories}
use dmanix.Lint.Proper.{Proper, nil-Proper, proper_rules}
use dmanix.Lines.{CleansedLines}
use dmanix.Nesting.{NestingState}
use dmanix.Tokens.Proper.{check_comment-Proper}
use dmanix.Spacing.Blank.{access_report, check_blank_line}
use dmanix.Spacing.Remarks.{remark_at, check_remark}
use dmanix.Spacing.Operators.{check_operator_spacing, check_angles}
use dmanix.Spacing.Parens.{
  check_parens, check_control_parens, check_separators, check_tight_braces, check_last_semicolon,
  check_range_colon,
}
use dmanix.Spacing.Calls.{check_spacing_for_function_call}
use dmanix.Spacing.{check_spacing, check_elided_spacing}

check_spacing_for_function_call-Proper :
    (filename line : Text) (linenum : ℕ)
    → Proper filename (check_spacing_for_function_call filename line linenum)
unfolding check_spacing_for_function_call mem_text error_categories
check_spacing_for_function_call-Proper filename line linenum = search proper_rules depth 12

check_angles-Proper :
    (filename : Text) (clean : CleansedLines) (linenum : ℕ) (line : Text)
    → Proper filename (check_angles filename clean linenum line)
unfolding check_angles mem_text error_categories
check_angles-Proper filename clean linenum line = search proper_rules

check_operator_spacing-Proper :
    (filename : Text) (clean : CleansedLines) (linenum : ℕ) (line : Text)
    → Proper filename (check_operator_spacing filename clean linenum line)
unfolding check_operator_spacing mem_text error_categories
check_operator_spacing-Proper filename clean linenum line =
    search (proper_rules, check_angles-Proper) depth 12

check_control_parens-Proper :
    (filename : Text) (linenum : ℕ) (line : Text) (m : Option Found)
    → Proper filename (check_control_parens filename linenum line m)
unfolding check_control_parens mem_text error_categories
check_control_parens-Proper filename linenum line none = search proper_rules
check_control_parens-Proper filename linenum line (some m) = search proper_rules

check_parens-Proper :
    (filename : Text) (linenum : ℕ) (line : Text)
    → Proper filename (check_parens filename linenum line)
unfolding check_parens mem_text error_categories
check_parens-Proper filename linenum line = search (proper_rules, check_control_parens-Proper)

check_separators-Proper :
    (filename : Text) (linenum : ℕ) (line : Text)
    → Proper filename (check_separators filename linenum line)
unfolding check_separators mem_text error_categories
check_separators-Proper filename linenum line = search proper_rules

check_tight_braces-Proper :
    (filename : Text) (linenum : ℕ) (line : Text)
    → Proper filename (check_tight_braces filename linenum line)
unfolding check_tight_braces mem_text error_categories
check_tight_braces-Proper filename linenum line = search proper_rules

check_last_semicolon-Proper :
    (filename : Text) (linenum : ℕ) (line : Text)
    → Proper filename (check_last_semicolon filename linenum line)
unfolding check_last_semicolon mem_text error_categories
check_last_semicolon-Proper filename linenum line = search proper_rules

check_range_colon-Proper :
    (filename : Text) (linenum : ℕ) (line : Text)
    → Proper filename (check_range_colon filename linenum line)
unfolding check_range_colon mem_text error_categories
check_range_colon-Proper filename linenum line = search proper_rules

ruleset spacing_rules = (
  proper_rules, check_spacing_for_function_call-Proper, check_operator_spacing-Proper,
  check_parens-Proper, check_separators-Proper, check_tight_braces-Proper,
  check_last_semicolon-Proper, check_range_colon-Proper,
)

check_elided_spacing-Proper :
    (filename : Text) (clean : CleansedLines) (linenum : ℕ) (line : Text)
    → Proper filename (check_elided_spacing filename clean linenum line)
unfolding check_elided_spacing
check_elided_spacing-Proper filename clean linenum line = search spacing_rules depth 12

access_report-Proper :
    (filename : Text) (linenum : ℕ) (m : Option Found)
    → Proper filename (access_report filename linenum m)
unfolding mem_text error_categories
access_report-Proper filename linenum none = nil-Proper
access_report-Proper filename linenum (some m) = search proper_rules

check_blank_line-Proper :
    (filename : Text) (clean : CleansedLines) (linenum : ℕ)
    → Proper filename (check_blank_line filename clean linenum)
unfolding check_blank_line mem_text error_categories
check_blank_line-Proper filename clean linenum = search (proper_rules, access_report-Proper)

remark_at-Proper :
    (filename : Text) (linenum : ℕ) (line : Text) (commentpos : Option ℕ)
    → Proper filename (remark_at filename linenum line commentpos)
unfolding mem_text error_categories
remark_at-Proper filename linenum line none = nil-Proper
remark_at-Proper filename linenum line (some commentpos) =
    search (proper_rules, check_comment-Proper)

check_remark-Proper :
    (filename : Text) (linenum : ℕ) (line : Text)
    → Proper filename (check_remark filename linenum line)
unfolding check_remark
check_remark-Proper filename linenum line =
    remark_at-Proper filename linenum line (find line (codes "//"))

pub check_spacing-Proper :
    (filename : Text) (clean : CleansedLines) (linenum : ℕ) (nesting_state : NestingState)
    → Proper filename (check_spacing filename clean linenum nesting_state)
unfolding check_spacing
check_spacing-Proper filename clean linenum nesting_state =
    search (proper_rules, check_blank_line-Proper, check_remark-Proper, check_elided_spacing-Proper)
