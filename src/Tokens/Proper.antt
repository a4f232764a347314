-- ===== src/Tokens/Proper.antt =====
-- The reports of the checks of single tokens are proper.
use dmanix.Base.{ℕ, List, [], ◌∷◌, Option, none, some, Text, String, mem_text, get_or}
use dmanix.Regex.Search.{Found, match}
use dmanix.Lint.Categories.{error_categories}
use dmanix.Lint.Proper.{
  Proper, IsProper, nil-Proper, append-Proper, if-Proper, map-Proper, proper_rules,
}
use dmanix.Lines.{CleansedLines}
use dmanix.Tokens.Lines.{
  threading_list, check_threading, check_posix_threading, check_for_multiline_comments_and_strings,
  check_invalid_increment, check_make_pair_uses_deduction, re_todo, todo_actions, check_comment,
  alt_report, check_alt_tokens,
}
use dmanix.Tokens.Macros.{
  CheckMacro, check_report, check_replacement, replaceable_check, first_macro, check_macros,
  operators, check_operators, check_with, check_check,
}

pub check_for_multiline_comments_and_strings-Proper :
    (filename : Text) (clean : CleansedLines) (linenum : ℕ)
    → Proper filename (check_for_multiline_comments_and_strings filename clean linenum)
unfolding check_for_multiline_comments_and_strings mem_text error_categories
check_for_multiline_comments_and_strings-Proper filename clean linenum = search proper_rules

check_threading-Proper :
    (filename : Text) (linenum : ℕ) (line : Text) (pairs : List (String × String))
    → Proper filename (check_threading filename linenum line pairs)
unfolding check_threading mem_text error_categories
check_threading-Proper filename linenum line [] = nil-Proper
check_threading-Proper filename linenum line ((single, multi) ∷ pairs) =
    append-Proper (search proper_rules) (check_threading-Proper filename linenum line pairs)

pub check_posix_threading-Proper :
    (filename : Text) (clean : CleansedLines) (linenum : ℕ)
    → Proper filename (check_posix_threading filename clean linenum)
unfolding check_posix_threading mem_text error_categories
check_posix_threading-Proper filename clean linenum =
    check_threading-Proper filename linenum (get_or clean.elided linenum []) threading_list

pub check_invalid_increment-Proper :
    (filename : Text) (clean : CleansedLines) (linenum : ℕ)
    → Proper filename (check_invalid_increment filename clean linenum)
unfolding check_invalid_increment mem_text error_categories
check_invalid_increment-Proper filename clean linenum = search proper_rules

pub check_make_pair_uses_deduction-Proper :
    (filename : Text) (clean : CleansedLines) (linenum : ℕ)
    → Proper filename (check_make_pair_uses_deduction filename clean linenum)
unfolding check_make_pair_uses_deduction mem_text error_categories
check_make_pair_uses_deduction-Proper filename clean linenum = search proper_rules

todo_actions-Proper :
    (filename : Text) (linenum : ℕ) (m : Option Found)
    → Proper filename (todo_actions filename linenum m)
unfolding mem_text error_categories
todo_actions-Proper filename linenum none = nil-Proper
todo_actions-Proper filename linenum (some m) = search proper_rules

pub check_comment-Proper :
    (comment filename : Text) (linenum : ℕ)
    → Proper filename (check_comment comment filename linenum)
unfolding check_comment
check_comment-Proper comment filename linenum =
    todo_actions-Proper filename linenum (match re_todo comment)

pub check_alt_tokens-Proper :
    (filename : Text) (clean : CleansedLines) (linenum : ℕ)
    → Proper filename (check_alt_tokens filename clean linenum)
unfolding check_alt_tokens mem_text error_categories
check_alt_tokens-Proper filename clean linenum =
    let rule : (m : Found) → IsProper filename (alt_report filename linenum m) =
      λ m. search proper_rules in
    search (proper_rules, map-Proper, rule)

check_report-Proper :
    (filename : Text) (linenum : ℕ) (m : CheckMacro) (operator : Text) (replacement : Option Text)
    → Proper filename (check_report filename linenum m operator replacement)
unfolding mem_text error_categories
check_report-Proper filename linenum m operator none = nil-Proper
check_report-Proper filename linenum m operator (some replacement) = search proper_rules

check_operators-Proper :
    (filename : Text) (linenum : ℕ) (line : Text) (m : CheckMacro) (rest : List Text)
    → Proper filename (check_operators filename linenum line m rest)
unfolding check_operators
check_operators-Proper filename linenum line m [] = nil-Proper
check_operators-Proper filename linenum line m (operator ∷ rest) =
    if-Proper (replaceable_check operator m.name line)
      (check_report-Proper filename linenum m operator (check_replacement m operator))
      (check_operators-Proper filename linenum line m rest)

check_with-Proper :
    (filename : Text) (clean : CleansedLines) (linenum : ℕ) (m : Option CheckMacro)
    → Proper filename (check_with filename clean linenum m)
check_with-Proper filename clean linenum none = nil-Proper
check_with-Proper filename clean linenum (some m) =
    check_operators-Proper filename linenum (get_or clean.elided linenum []) m operators

pub check_check-Proper :
    (filename : Text) (clean : CleansedLines) (linenum : ℕ)
    → Proper filename (check_check filename clean linenum)
unfolding check_check
check_check-Proper filename clean linenum =
    check_with-Proper filename clean linenum
      (first_macro check_macros (get_or clean.raw_lines linenum []))
