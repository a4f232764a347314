-- ===== src/Constructs.antt =====
-- scripts/cpplint.py: `CheckForNonStandardConstructs`.
pub mod Proper
mod Examples
use dmanix.Base.{
  ℕ, zero, suc, Bool, true, false, not, ◌&&◌, ◌||◌, Option, none, some, List, [], ◌∷◌, ◌++◌, Text,
  codes, text_eq, replace, get_or, strip, find, length, drop, ◌+◌, is_ascii_space, ◌==◌,
  if◌then◌else◌,
}
use dmanix.Regex.{Regex, one, group, star, start, end, boundary}
use dmanix.Regex.Chars.{
  ◌⨾◌, ◌⊕◌, chr, lit, literal, one_of, in_set, not_in_set, dot, space, word_char, plus, opt, digit,
}
use dmanix.Regex.Search.{Found, match, matches, occurs, group_text}
use dmanix.Lint.{Action}
use dmanix.Lint.Report.{error_if}
use dmanix.Lines.{CleansedLines}
use dmanix.Nesting.{BlockInfo, ClassInfo, Kind, plain, class_kind, namespace_kind, NestingState}

-- printf\s*\(.*".*
abbrev printf_format : Regex
printf_format = lit "printf" ⨾ star space ⨾ chr b'(' ⨾ star dot ⨾ chr 34 ⨾ star dot

-- printf\s*\(.*".*%[-+ ]?\d*q
abbrev re_percent_q : Regex
re_percent_q = printf_format ⨾ chr b'%' ⨾ opt (in_set "-+ ") ⨾ star digit ⨾ chr b'q'

-- printf\s*\(.*".*%\d+\$
abbrev re_percent_n : Regex
re_percent_n = printf_format ⨾ chr b'%' ⨾ plus digit ⨾ chr b'$'

-- ("|\').*\\(%|\[|\(|{)
abbrev re_undefined_escape : Regex
re_undefined_escape =
    group 1 (chr 34 ⊕ chr 39) ⨾ star dot ⨾ chr 92 ⨾ group 2 (one_of "%" ("[" ∷ "(" ∷ "{" ∷ []))

-- The checks of the line with its strings.
unfoldable pub check_formats : Text → ℕ → Text → List Action
unfolding error_if occurs replace
check_formats filename linenum line =
    error_if (occurs re_percent_q line) filename linenum "runtime/printf_format" 3
      (codes "%q in format strings is deprecated.  Use %ll instead.")
    ++ error_if (occurs re_percent_n line) filename linenum "runtime/printf_format" 2
        (codes "%N$ formats are unconventional.  Try rewriting to avoid them.")
    ++ error_if (occurs re_undefined_escape (replace (codes "\\\\") [] line)) filename linenum
        "build/printf_format" 3
        (codes "%, [, (, and { are undefined character escapes.  Unescape them.")

-- \b(const|…|schar|u?int8|…|u?int64)\s+(register|static|extern|typedef)\b
abbrev re_storage_class : Regex
re_storage_class =
    boundary
    ⨾ group 1 (
        one_of "const" (
          "volatile" ∷ "void" ∷ "char" ∷ "short" ∷ "int" ∷ "long" ∷ "float" ∷ "double" ∷ "signed"
          ∷ "unsigned" ∷ "schar" ∷ [])
        ⊕ opt (chr b'u') ⨾ lit "int8"
        ⊕ opt (chr b'u') ⨾ lit "int16"
        ⊕ opt (chr b'u') ⨾ lit "int32"
        ⊕ opt (chr b'u') ⨾ lit "int64")
    ⨾ plus space
    ⨾ group 2 (one_of "register" ("static" ∷ "extern" ∷ "typedef" ∷ []))
    ⨾ boundary

-- \s*#\s*endif\s*[^/\s]+
abbrev re_endif_text : Regex
re_endif_text =
    star space
    ⨾ chr b'#'
    ⨾ star space
    ⨾ lit "endif"
    ⨾ star space
    ⨾ plus (one (λ d. not (d == b'/' || is_ascii_space d)))

-- \s*class\s+(\w+\s*::\s*)+\w+\s*;
abbrev re_inner_declaration : Regex
re_inner_declaration =
    star space
    ⨾ lit "class"
    ⨾ plus space
    ⨾ plus (group 1 (plus word_char ⨾ star space ⨾ lit "::" ⨾ star space))
    ⨾ plus word_char
    ⨾ star space
    ⨾ chr b';'

-- (\w+|[+-]?\d+(\.\d*)?)\s*(<|>)\?=?\s*(\w+|[+-]?\d+)(\.\d*)?
abbrev re_min_max : Regex
re_min_max =
    let number = opt (in_set "+-") ⨾ plus digit in
    let fraction = chr b'.' ⨾ star digit in
    group 1 (plus word_char ⊕ number ⨾ opt (group 2 fraction))
    ⨾ star space
    ⨾ group 3 (chr b'<' ⊕ chr b'>')
    ⨾ chr b'?'
    ⨾ opt (chr b'=')
    ⨾ star space
    ⨾ group 4 (plus word_char ⊕ number)
    ⨾ opt (group 5 fraction)

-- ^\s*const\s*string\s*&\s*\w+\s*;
abbrev re_string_member : Regex
re_string_member =
    start
    ⨾ star space
    ⨾ lit "const"
    ⨾ star space
    ⨾ lit "string"
    ⨾ star space
    ⨾ chr b'&'
    ⨾ star space
    ⨾ plus word_char
    ⨾ star space
    ⨾ chr b';'

-- The checks of the line without its strings, but for constructors.
unfoldable pub check_declarations : Text → ℕ → Text → List Action
unfolding error_if occurs matches
check_declarations filename linenum line =
    error_if (occurs re_storage_class line) filename linenum "build/storage_class" 5
      (codes "Storage class (static, extern, typedef, etc) should be first.")
    ++ error_if (matches re_endif_text line) filename linenum "build/endif_comment" 5
        (codes "Uncommented text after #endif is non-standard.  Use a comment.")
    ++ error_if (matches re_inner_declaration line) filename linenum "build/forward_decl" 5
        (codes "Inner-style forward declarations are invalid.  Remove this line.")
    ++ error_if (occurs re_min_max line) filename linenum "build/deprecated" 3
        (codes ">? and <? (max and min) operators are non-standard and deprecated.")
    ++ error_if (occurs re_string_member line) filename linenum "runtime/member_string_references" 2
        (codes "const string& members are dangerous. It is much better to use "
          ++ codes "alternatives, such as pointers or simple constants.")

-- name.split('::')[-1]; `skip` passes the second colon of a pair.
unfoldable pub last_component_from : ℕ → Text → Text → Text
last_component_from skip part [] = part
last_component_from (suc k) part (c ∷ s) = last_component_from k part s
last_component_from zero part (c ∷ []) = part ++ c ∷ []
last_component_from zero part (c ∷ d ∷ s) =
    let cut = last_component_from 1 [] (d ∷ s) in
    let rest = last_component_from 0 (part ++ c ∷ []) (d ∷ s) in
    if c == b':' && d == b':' then cut else rest

unfoldable pub last_component : Text → Text
unfolding last_component_from
last_component name = last_component_from 0 [] name

-- \s+(?:inline\s+)?NAME\s*\(([^,()]+)\)
abbrev re_constructor : Text → Regex
re_constructor name =
    plus space
    ⨾ opt (lit "inline" ⨾ plus space)
    ⨾ literal name
    ⨾ star space
    ⨾ chr b'('
    ⨾ group 1 (plus (not_in_set ",()"))
    ⨾ chr b')'

-- (const\s+)?NAME\s*(?:<\w+>\s*)?&
abbrev re_copied : Text → Regex
re_copied name =
    opt (group 1 (lit "const" ⨾ plus space))
    ⨾ literal name
    ⨾ star space
    ⨾ opt (chr b'<' ⨾ plus word_char ⨾ chr b'>' ⨾ star space)
    ⨾ chr b'&'

-- The argument of a constructor is neither void nor a reference to the class.
unfoldable pub is_implicit : Text → Option Found → Bool
unfolding group_text text_eq matches strip
is_implicit name none = false
is_implicit name (some args) =
    not (text_eq (group_text args 1) (codes "void"))
    && not (matches (re_copied name) (strip (group_text args 1)))

unfoldable pub check_constructor : Text → ℕ → Text → ClassInfo → List Action
unfolding error_if match is_implicit last_component
check_constructor filename linenum line classinfo =
    let base_classname = last_component classinfo.name in
    error_if (is_implicit base_classname (match (re_constructor base_classname) line)) filename
      linenum "runtime/explicit" 5 (codes "Single-argument constructors should be marked explicit.")

-- The innermost class, where its head has ended.
abbrev open_class_or : Bool → Kind → Option ClassInfo → Option ClassInfo
open_class_or seen_open_brace (class_kind c) outer = if seen_open_brace then some c else none
open_class_or seen_open_brace (namespace_kind _) outer = outer
open_class_or seen_open_brace plain outer = outer

unfoldable pub innermost_open_class : List BlockInfo → Option ClassInfo
innermost_open_class [] = none
innermost_open_class (b ∷ stack) =
    open_class_or b.seen_open_brace b.kind (innermost_open_class stack)

abbrev pub constructors_of : Text → ℕ → Text → Option ClassInfo → List Action
constructors_of filename linenum line none = []
constructors_of filename linenum line (some classinfo) =
    check_constructor filename linenum line classinfo

-- CheckForNonStandardConstructs(filename, clean_lines, linenum, nesting_state, error)
unfoldable pub check_for_non_standard_constructs :
    Text → CleansedLines → ℕ → NestingState → List Action
unfolding check_formats check_declarations check_constructor innermost_open_class
check_for_non_standard_constructs filename clean linenum nesting_state =
    let line = get_or clean.elided linenum [] in
    check_formats filename linenum (get_or clean.lines linenum [])
    ++ check_declarations filename linenum line
    ++ constructors_of filename linenum line (innermost_open_class nesting_state.stack)
