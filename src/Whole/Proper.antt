-- ===== src/Whole/Proper.antt =====
-- The reports of the checks of a whole file are proper.
use dmanix.Base.{ℕ, zero, suc, ◌+◌, length, List, [], ◌∷◌, Option, Text, mem_text}
use dmanix.Lint.Categories.{error_categories}
use dmanix.Lint.Proper.{
  Proper, ProperStep, nil-Proper, cons-Proper, if-Proper, if-ProperStep, proper_rules,
}
use dmanix.Lines.{CleansedLines}
use dmanix.Whole.{
  check_for_copyright, check_utf8_from, check_for_unicode_replacement_characters,
  check_for_newline_at_eof,
}
use dmanix.Comments.{no_end_found, remove_from, remove_multi_line_comments}
use dmanix.Needs.{Required}
use dmanix.Needs.Check.{Included, report_missing, check_for_include_what_you_use}

pub check_for_copyright-Proper :
    (filename : Text) (lines : List Text) → Proper filename (check_for_copyright filename lines)
unfolding check_for_copyright mem_text error_categories
check_for_copyright-Proper filename lines = search proper_rules

check_utf8_from-Proper :
    (filename : Text) (linenum : ℕ) (lines : List Text)
    → Proper filename (check_utf8_from filename linenum lines)
unfolding check_utf8_from mem_text error_categories
check_utf8_from-Proper filename linenum [] = nil-Proper
check_utf8_from-Proper filename linenum (line ∷ lines) =
    let rest = check_utf8_from-Proper filename (linenum + 1) lines in
    if-Proper _ (cons-Proper (search proper_rules) rest) rest

pub check_for_unicode_replacement_characters-Proper :
    (filename : Text) (lines : List Text)
    → Proper filename (check_for_unicode_replacement_characters filename lines)
unfolding check_for_unicode_replacement_characters
check_for_unicode_replacement_characters-Proper filename lines =
    check_utf8_from-Proper filename 0 lines

pub check_for_newline_at_eof-Proper :
    (filename : Text) (lines : List Text)
    → Proper filename (check_for_newline_at_eof filename lines)
unfolding check_for_newline_at_eof mem_text error_categories
check_for_newline_at_eof-Proper filename lines = search proper_rules

no_end_found-Proper :
    (filename : Text) (lineix_begin : ℕ) → Proper filename (no_end_found filename lineix_begin)
unfolding mem_text error_categories
no_end_found-Proper filename lineix_begin = search proper_rules

remove_from-Proper :
    (fuel : ℕ) (filename : Text) (lines : List Text) (lineix : ℕ)
    → ProperStep filename (remove_from fuel filename lines lineix)
unfolding remove_from
remove_from-Proper zero filename lines lineix = tt
remove_from-Proper (suc fuel) filename lines lineix =
    search (if-ProperStep, nil-Proper, no_end_found-Proper, remove_from-Proper fuel filename)

pub remove_multi_line_comments-Proper :
    (filename : Text) (lines : List Text)
    → ProperStep filename (remove_multi_line_comments filename lines)
unfolding remove_multi_line_comments
remove_multi_line_comments-Proper filename lines =
    remove_from-Proper (suc (length lines)) filename lines 0

report_missing-Proper :
    (filename : Text) (included : Included) (required : Required)
    → Proper filename (report_missing filename included required)
unfolding report_missing mem_text error_categories
report_missing-Proper filename included [] = nil-Proper
report_missing-Proper filename included ((header, (linenum, template)) ∷ required) =
    let rest = report_missing-Proper filename included required in
    if-Proper _ rest (cons-Proper (search proper_rules) rest)

pub check_for_include_what_you_use-Proper :
    (open_file : Text → Option (List Text)) (full_name filename : Text) (clean : CleansedLines)
    (included : Included)
    → Proper filename (check_for_include_what_you_use open_file full_name filename clean included)
unfolding check_for_include_what_you_use
check_for_include_what_you_use-Proper open_file full_name filename clean included =
    search (proper_rules, report_missing-Proper)
