-- ===== src/Language/Proper.antt =====
-- The reports of `CheckLanguage` on code are proper.
use dmanix.Base.{ℕ, Option, none, some, Text, String, mem_text}
use dmanix.Regex.Search.{Found, match, search_in}
use dmanix.Lint.Categories.{error_categories}
use dmanix.Lint.Proper.{Proper, nil-Proper, if_second-Proper, proper_rules}
use dmanix.Lines.{CleansedLines}
use dmanix.Regex.{Regex}
use dmanix.TextInside.{TextInside, text_inside, nothing_inside, assertion_fails}
use dmanix.Language.Casts.{
  conversion_actions, check_conversion, cast_or_function, on_cast, check_c_style_cast,
  check_c_style_casts, check_casts, check_rtti,
}
use dmanix.Language.References.{
  check_references, string_actions, check_global_string, check_member_init,
}
use dmanix.Language.Words.{
  check_integers, snprintf_actions, check_c_functions, check_suspicious, format_actions,
  argument_actions, check_format_string, memset_actions, check_memset, check_using_namespace,
  format_report, re_printf, re_printf_argument,
}
use dmanix.Language.Arrays.{check_arrays}
use dmanix.Language.Classes.{disallow_actions, check_disallow, check_unnamed_namespace}
use dmanix.Language.{check_code}

conversion_actions-Proper :
    (filename : Text) (clean : CleansedLines) (linenum : ℕ) (line : Text) (m : Option Found)
    → Proper filename (conversion_actions filename clean linenum line m)
unfolding mem_text error_categories
conversion_actions-Proper filename clean linenum line none = nil-Proper
conversion_actions-Proper filename clean linenum line (some m) = search proper_rules

cast_or_function-Proper :
    (filename : Text) (linenum : ℕ) (raw_line : Text) (cast_type : String) (m : Found)
    (f : Option Found)
    → Proper filename (cast_or_function filename linenum raw_line cast_type m f).1
unfolding mem_text error_categories
cast_or_function-Proper filename linenum raw_line cast_type m none = search proper_rules
cast_or_function-Proper filename linenum raw_line cast_type m (some f) = search proper_rules

on_cast-Proper :
    (filename : Text) (linenum : ℕ) (line raw_line : Text) (cast_type : String) (m : Option Found)
    → Proper filename (on_cast filename linenum line raw_line cast_type m).1
unfolding mem_text error_categories
on_cast-Proper filename linenum line raw_line cast_type none = nil-Proper
on_cast-Proper filename linenum line raw_line cast_type (some m) =
    search (proper_rules, if_second-Proper, cast_or_function-Proper)

pub check_c_style_cast-Proper :
    (filename : Text) (linenum : ℕ) (line raw_line : Text) (cast_type : String) (pattern : Regex)
    → Proper filename (check_c_style_cast filename linenum line raw_line cast_type pattern).1
unfolding check_c_style_cast
check_c_style_cast-Proper filename linenum line raw_line cast_type pattern =
    on_cast-Proper filename linenum line raw_line cast_type (search_in pattern line)

check_c_style_casts-Proper :
    (filename : Text) (clean : CleansedLines) (linenum : ℕ) (line : Text)
    → Proper filename (check_c_style_casts filename clean linenum line)
unfolding check_c_style_casts
check_c_style_casts-Proper filename clean linenum line =
    search (proper_rules, check_c_style_cast-Proper)

check_casts-Proper :
    (filename : Text) (clean : CleansedLines) (linenum : ℕ) (line : Text)
    → Proper filename (check_casts filename clean linenum line)
unfolding check_casts check_conversion mem_text error_categories
check_casts-Proper filename clean linenum line =
    search (proper_rules, conversion_actions-Proper, check_c_style_casts-Proper)

string_actions-Proper :
    (filename : Text) (linenum : ℕ) (m : Option Found)
    → Proper filename (string_actions filename linenum m)
unfolding mem_text error_categories
string_actions-Proper filename linenum none = nil-Proper
string_actions-Proper filename linenum (some m) = search proper_rules

snprintf_actions-Proper :
    (filename : Text) (linenum : ℕ) (m : Option Found)
    → Proper filename (snprintf_actions filename linenum m)
unfolding mem_text error_categories
snprintf_actions-Proper filename linenum none = nil-Proper
snprintf_actions-Proper filename linenum (some m) = search proper_rules

check_c_functions-Proper :
    (filename : Text) (linenum : ℕ) (line : Text)
    → Proper filename (check_c_functions filename linenum line)
unfolding check_c_functions mem_text error_categories
check_c_functions-Proper filename linenum line = search (proper_rules, snprintf_actions-Proper)

format_report-Proper :
    (filename : Text) (linenum : ℕ) (m : Found) (f : Option Found)
    → Proper filename (format_report filename linenum m f)
unfolding mem_text error_categories
format_report-Proper filename linenum m none = nil-Proper
format_report-Proper filename linenum m (some f) = search proper_rules

format_actions-Proper :
    (filename : Text) (linenum : ℕ) (line : Text) (m : Option Found)
    → Proper filename (format_actions filename linenum line m)
format_actions-Proper filename linenum line none = nil-Proper
format_actions-Proper filename linenum line (some m) =
    format_report-Proper filename linenum m (search_in re_printf line)

argument_actions-Proper :
    (filename : Text) (linenum : ℕ) (line : Text) (t : TextInside)
    → Proper filename (argument_actions filename linenum line t)
argument_actions-Proper filename linenum line (text_inside printf_args) =
    format_actions-Proper filename linenum line (match re_printf_argument printf_args)
argument_actions-Proper filename linenum line nothing_inside = nil-Proper
argument_actions-Proper filename linenum line assertion_fails = nil-Proper

memset_actions-Proper :
    (filename : Text) (linenum : ℕ) (m : Option Found)
    → Proper filename (memset_actions filename linenum m)
unfolding mem_text error_categories
memset_actions-Proper filename linenum none = nil-Proper
memset_actions-Proper filename linenum (some m) = search proper_rules

disallow_actions-Proper :
    (filename : Text) (clean : CleansedLines) (linenum : ℕ) (m : Option Found)
    → Proper filename (disallow_actions filename clean linenum m)
unfolding mem_text error_categories
disallow_actions-Proper filename clean linenum none = nil-Proper
disallow_actions-Proper filename clean linenum (some m) = search proper_rules

ruleset language_rules = (
  proper_rules, check_casts-Proper, string_actions-Proper, check_c_functions-Proper,
  argument_actions-Proper, memset_actions-Proper, disallow_actions-Proper,
)

pub check_code-Proper :
    (filename : Text) (clean : CleansedLines) (linenum : ℕ) (file_extension line : Text)
    → Proper filename (check_code filename clean linenum file_extension line)
unfolding check_code check_references check_global_string check_rtti check_member_init
    check_integers check_suspicious check_format_string check_memset check_using_namespace
    check_arrays check_disallow check_unnamed_namespace mem_text error_categories
check_code-Proper filename clean linenum file_extension line =
    search language_rules depth 20 fits 3000
