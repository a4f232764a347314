-- ===== src/Spacing.antt =====
-- scripts/cpplint.py: `CheckSpacing`, a part for each group of its conditions.
pub mod Proper
mod Examples
pub mod Blank
pub mod Remarks
pub mod Operators
pub mod Parens
pub mod Calls
use dmanix.Base.{ℕ, Bool, not, ◌&&◌, List, [], ◌++◌, Text, get_or, if◌then◌else◌}
use dmanix.Lint.{Action}
use dmanix.Lines.{CleansedLines}
use dmanix.Nesting.{NestingState, in_namespace_body}
use dmanix.Layout.{is_blank_line}
use dmanix.Spacing.Blank.{check_blank_line}
use dmanix.Spacing.Remarks.{check_remark}
use dmanix.Spacing.Operators.{without_operator_methods, check_operator_spacing}
use dmanix.Spacing.Parens.{
  check_parens, check_separators, check_tight_braces, check_last_semicolon, check_range_colon,
}
use dmanix.Spacing.Calls.{check_spacing_for_function_call}

-- The part of CheckSpacing that reads the line without comments and strings.
unfoldable pub check_elided_spacing : Text → CleansedLines → ℕ → Text → List Action
unfolding check_operator_spacing check_parens check_separators check_spacing_for_function_call
    check_tight_braces check_last_semicolon check_range_colon
check_elided_spacing filename clean linenum line =
    check_operator_spacing filename clean linenum line
    ++ check_parens filename linenum line
    ++ check_separators filename linenum line
    ++ check_spacing_for_function_call filename line linenum
    ++ check_tight_braces filename linenum line
    ++ check_last_semicolon filename linenum line
    ++ check_range_colon filename linenum line

-- CheckSpacing(filename, clean_lines, linenum, nesting_state, error)
unfoldable pub check_spacing : Text → CleansedLines → ℕ → NestingState → List Action
unfolding is_blank_line in_namespace_body check_blank_line check_remark without_operator_methods
    check_elided_spacing
check_spacing filename clean linenum nesting_state =
    let raw = get_or clean.raw_lines linenum [] in
    let line = without_operator_methods (get_or clean.elided linenum []) in
    (if is_blank_line raw && not (in_namespace_body nesting_state.stack)
      then check_blank_line filename clean linenum
      else [])
    ++ check_remark filename linenum raw
    ++ check_elided_spacing filename clean linenum line
