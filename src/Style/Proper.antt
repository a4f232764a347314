-- ===== src/Style/Proper.antt =====
-- The reports of `CheckStyle` are proper.
use dmanix.Base.{ℕ, suc, List, Option, none, some, Text, mem_text}
use dmanix.Lint.{Action}
use dmanix.Lint.Categories.{error_categories}
use dmanix.Lint.Proper.{Proper, ProperIfSome, nil-Proper, append-Proper, proper_rules}
use dmanix.Lines.{CleansedLines}
use dmanix.Nesting.{ClassInfo, NestingState}
use dmanix.Layout.{check_braces}
use dmanix.Layout.Proper.{
  check_braces-Proper, check_empty_loop_body-Proper, check_section_spacing-Proper,
  check_access-Proper,
}
use dmanix.Spacing.Proper.{check_spacing-Proper}
use dmanix.Tokens.Proper.{check_check-Proper, check_alt_tokens-Proper}
use dmanix.Style.Width.{UnicodeData}
use dmanix.Style.Indent.{check_line_start}
use dmanix.Style.{
  check_line_length, check_line_style, section_spacing, style_around, check_further_style,
  check_style,
}

check_line_start-Proper :
    (filename : Text) (linenum : ℕ) (line cleansed_line : Text)
    → Proper filename (check_line_start filename linenum line cleansed_line)
unfolding check_line_start mem_text error_categories
check_line_start-Proper filename linenum line cleansed_line = search proper_rules

check_line_length-Proper :
    (filename : Text) (linenum line_width : ℕ)
    → Proper filename (check_line_length filename linenum line_width)
unfolding check_line_length mem_text error_categories
check_line_length-Proper filename linenum line_width = search proper_rules

check_line_style-Proper :
    (unicodedata : UnicodeData) (filename : Text) (clean : CleansedLines) (linenum : ℕ)
    (file_extension cppvar : Text)
    → Proper filename (check_line_style unicodedata filename clean linenum file_extension cppvar)
unfolding check_line_style mem_text error_categories
check_line_style-Proper unicodedata filename clean linenum file_extension cppvar =
    search (proper_rules, check_line_start-Proper, check_line_length-Proper)

section_spacing-Proper :
    (filename : Text) (clean : CleansedLines) (linenum : ℕ) (classinfo : Option ClassInfo)
    → Proper filename (section_spacing filename clean linenum classinfo)
section_spacing-Proper filename clean linenum none = nil-Proper
section_spacing-Proper filename clean linenum (some classinfo) =
    check_section_spacing-Proper filename clean classinfo linenum

ruleset further_rules = (
  proper_rules, check_empty_loop_body-Proper, check_access-Proper, check_spacing-Proper,
  check_check-Proper, check_alt_tokens-Proper, section_spacing-Proper,
)

check_further_style-Proper :
    (filename : Text) (clean : CleansedLines) (linenum : ℕ) (nesting_state : NestingState)
    → Proper filename (check_further_style filename clean linenum nesting_state)
unfolding check_further_style
check_further_style-Proper filename clean linenum nesting_state = search further_rules depth 8

style_around-Proper :
    (filename : Text) (before after : List Action) (o : Option (List Action))
    → Proper filename before
    → ProperIfSome filename o
    → Proper filename after
    → ProperIfSome filename (style_around before o after)
style_around-Proper filename before after none p q r = tt
style_around-Proper filename before after (some actions) p q r = append-Proper (append-Proper p q) r

pub check_style-Proper :
    (unicodedata : UnicodeData) (filename : Text) (clean : CleansedLines) (linenum : ℕ)
    (file_extension cppvar : Text) (nesting_state : NestingState)
    → ProperIfSome filename
        (check_style unicodedata filename clean linenum file_extension cppvar nesting_state)
unfolding check_style
check_style-Proper unicodedata filename clean linenum file_extension cppvar nesting_state =
    style_around-Proper filename _ _ (check_braces (suc linenum) filename clean linenum)
      (check_line_style-Proper unicodedata filename clean linenum file_extension cppvar)
      (check_braces-Proper (suc linenum) filename clean linenum)
      (check_further_style-Proper filename clean linenum nesting_state)
