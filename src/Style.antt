-- ===== src/Style.antt =====
-- scripts/cpplint.py: `GetLineWidth` and `CheckStyle`. What the module `unicodedata` knows of characters is an
-- argument, and so is the name of the header guard.
pub mod Proper
mod Examples
pub mod Width
pub mod Indent
use dmanix.Base.{
  ℕ, suc, Bool, true, false, not, ◌&&◌, ◌||◌, Option, none, some, List, [], ◌∷◌, ◌++◌, Text, codes,
  text_eq, get_or, find, count_char, starts_with, mem_char, ltb, is_some, if◌then◌else◌,
}
use dmanix.Regex.{Regex, group, star, start, end}
use dmanix.Regex.Chars.{◌⨾◌, chr, lit, dot, space, non_space, plus, opt, digit}
use dmanix.Regex.Search.{matches}
use dmanix.Lint.{Action}
use dmanix.Lint.Report.{error_if}
use dmanix.Lines.{CleansedLines}
use dmanix.Nesting.{ClassInfo, NestingState, innermost_class}
use dmanix.Layout.{get_previous_non_blank_line, check_braces}
use dmanix.Layout.Loops.{check_empty_loop_body}
use dmanix.Layout.Sections.{check_section_spacing, check_access}
use dmanix.Spacing.{check_spacing}
use dmanix.Tokens.Macros.{check_check}
use dmanix.Tokens.Lines.{check_alt_tokens}
use dmanix.Style.Width.{UnicodeData, get_line_width}
use dmanix.Style.Indent.{check_line_start}

unfoldable pub is_header_guard : Text → Text → Text → Bool
unfolding starts_with text_eq
is_header_guard file_extension cppvar line =
    text_eq file_extension (codes "h")
    && (starts_with line (codes "#ifndef " ++ cppvar)
        || starts_with line (codes "#define " ++ cppvar)
        || starts_with line (codes "#endif  // " ++ cppvar))

-- ^\s*//.*http(s?)://\S*$
abbrev re_url : Regex
re_url =
    start
    ⨾ star space
    ⨾ lit "//"
    ⨾ star dot
    ⨾ lit "http"
    ⨾ group 1 (opt (chr b's'))
    ⨾ lit "://"
    ⨾ star non_space
    ⨾ end

-- ^// \$Id:.*#[0-9]+ \$$
abbrev re_id : Regex
re_id = start ⨾ lit "// $Id:" ⨾ star dot ⨾ chr b'#' ⨾ plus digit ⨾ lit " $" ⨾ end

-- The lines that may be long.
unfoldable pub may_be_long : Text → Text → Text → Bool
unfolding starts_with is_header_guard matches
may_be_long file_extension cppvar line =
    starts_with line (codes "#include")
    || is_header_guard file_extension cppvar line
    || matches re_url line
    || matches re_id line

unfoldable pub check_line_length : Text → ℕ → ℕ → List Action
unfolding error_if
check_line_length filename linenum line_width =
    if ltb 100 line_width
    then error_if true filename linenum "whitespace/line_length" 4
        (codes "Lines should very rarely be longer than 100 characters")
    else error_if (ltb 80 line_width) filename linenum "whitespace/line_length" 2
        (codes "Lines should be <= 80 characters long")

abbrev has_text : Text → Text → Bool
has_text line part = is_some (find line part)

-- More than one semicolon outside a `for`, and no switch case that fits in one line.
unfoldable pub has_many_commands : Text → Text → Bool
unfolding count_char find
has_many_commands line previous =
    ltb 1 (count_char b';' line)
    && not (has_text line (codes "for"))
    && (not (has_text previous (codes "for")) || has_text previous (codes ";"))
    && not (
        (has_text line (codes "case ") || has_text line (codes "default:"))
        && has_text line (codes "break;"))

-- The part of CheckStyle before its calls of other checks.
unfoldable pub check_line_style : UnicodeData → Text → CleansedLines → ℕ → Text → Text → List Action
unfolding error_if mem_char check_line_start may_be_long check_line_length get_line_width
    has_many_commands get_previous_non_blank_line
check_line_style unicodedata filename clean linenum file_extension cppvar =
    let line = get_or clean.raw_lines linenum [] in
    let cleansed_line = get_or clean.elided linenum [] in
    error_if (mem_char 9 line) filename linenum "whitespace/tab" 1
      (codes "Tab found; better to use spaces")
    ++ check_line_start filename linenum line cleansed_line
    ++ (if may_be_long file_extension cppvar line
        then []
        else check_line_length filename linenum (get_line_width unicodedata line))
    ++ error_if
        (has_many_commands cleansed_line
          (get_previous_non_blank_line clean.elided (some linenum)).0)
        filename linenum "whitespace/newline" 0 (codes "More than one command on the same line")

abbrev pub section_spacing : Text → CleansedLines → ℕ → Option ClassInfo → List Action
section_spacing filename clean linenum none = []
section_spacing filename clean linenum (some classinfo) =
    check_section_spacing filename clean classinfo linenum

abbrev pub style_around : List Action → Option (List Action) → List Action → Option (List Action)
style_around before none after = none
style_around before (some actions) after = some (before ++ actions ++ after)

-- The checks that CheckStyle calls behind CheckBraces.
unfoldable pub check_further_style : Text → CleansedLines → ℕ → NestingState → List Action
unfolding check_empty_loop_body check_access check_spacing check_check check_alt_tokens
    innermost_class check_section_spacing
check_further_style filename clean linenum nesting_state =
    check_empty_loop_body filename clean linenum
    ++ check_access filename clean linenum nesting_state.stack
    ++ check_spacing filename clean linenum nesting_state
    ++ check_check filename clean linenum
    ++ check_alt_tokens filename clean linenum
    ++ section_spacing filename clean linenum (innermost_class nesting_state.stack)

-- CheckStyle(filename, clean_lines, linenum, file_extension, nesting_state, error). CheckBraces has fuel for the
-- lines up to this one; `none` is its loop that does not end.
unfoldable pub check_style :
    UnicodeData → Text → CleansedLines → ℕ → Text → Text → NestingState → Option (List Action)
unfolding check_line_style check_braces check_further_style
check_style unicodedata filename clean linenum file_extension cppvar nesting_state =
    style_around (check_line_style unicodedata filename clean linenum file_extension cppvar)
      (check_braces (suc linenum) filename clean linenum)
      (check_further_style filename clean linenum nesting_state)
