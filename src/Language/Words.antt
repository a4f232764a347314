-- ===== src/Language/Words.antt =====
-- scripts/cpplint.py: what `CheckLanguage` says of types, of functions of the C library and of operators.
use dmanix.Base.{
  ℕ, not, Option, none, some, List, [], ◌++◌, Text, codes, text_eq, to_lower, if◌then◌else◌,
}
use dmanix.Regex.{Regex, one, group, star, look_not, start, end, boundary, is_word}
use dmanix.Regex.Chars.{◌⨾◌, ◌⊕◌, chr, lit, in_set, not_in_set, space, plus, opt, digit}
use dmanix.Regex.Search.{Found, search_in, match, matches, occurs, group_text}
use dmanix.Lint.{Action}
use dmanix.Lint.Report.{error_if, error_with_group}
use dmanix.TextInside.{TextInside, text_inside, nothing_inside, assertion_fails, get_text_inside}
use dmanix.Whole.{in_any_case}

abbrev word : Regex → Regex
word r = boundary ⨾ r ⨾ boundary

-- \b(short|long(?! +double)|long long)\b
abbrev re_c_integer : Regex
re_c_integer =
    word (
      group 1
        (lit "short" ⊕ lit "long" ⨾ look_not (plus (chr 32) ⨾ lit "double") ⊕ lit "long long"))

unfoldable pub check_integers : Text → ℕ → Text → List Action
unfolding error_if error_with_group occurs search_in
check_integers filename linenum line =
    if occurs (word (lit "short port")) line
    then error_if (not (occurs (word (lit "unsigned short port")) line)) filename linenum
        "runtime/int" 4 (codes "Use \"unsigned short\" for ports, not \"short\"")
    else error_with_group filename linenum "runtime/int" 4
        "Use int16/int64/etc, rather than the C type " (search_in re_c_integer line)

-- snprintf\s*\(([^,]*),\s*([0-9]*)\s*,
abbrev pub re_snprintf : Regex
re_snprintf =
    lit "snprintf"
    ⨾ star space
    ⨾ chr b'('
    ⨾ group 1 (star (not_in_set ","))
    ⨾ chr b','
    ⨾ star space
    ⨾ group 2 (star digit)
    ⨾ star space
    ⨾ chr b','

abbrev pub snprintf_actions : Text → ℕ → Option Found → List Action
snprintf_actions filename linenum none = []
snprintf_actions filename linenum (some m) =
    error_if (not (text_eq (group_text m 2) (codes "0"))) filename linenum "runtime/printf" 3 (
      codes "If you can, use sizeof("
      ++ group_text m 1
      ++ codes ") instead of "
      ++ group_text m 2
      ++ codes " as the 2nd arg "
      ++ codes "to snprintf.")

unfoldable pub check_c_functions : Text → ℕ → Text → List Action
unfolding error_if error_with_group occurs search_in group_text text_eq
check_c_functions filename linenum line =
    snprintf_actions filename linenum (search_in re_snprintf line)
    ++ error_if (occurs (word (lit "sprintf")) line) filename linenum "runtime/printf" 5
        (codes "Never use sprintf.  Use snprintf instead.")
    ++ error_with_group filename linenum "runtime/printf" 4
        "Almost always, snprintf is better than "
        (search_in (word (group 1 (lit "strcpy" ⊕ lit "strcat"))) line)
    ++ error_if (occurs (word (lit "sscanf")) line) filename linenum "runtime/printf" 1
        (codes "sscanf can be ok, but is slow and can overflow buffers.")

-- \boperator\s*&\s*\(\s*\) and \}\s*if\s*\(
unfoldable pub check_suspicious : Text → ℕ → Text → List Action
unfolding error_if occurs
check_suspicious filename linenum line =
    error_if
      (occurs
        (boundary
          ⨾ lit "operator"
          ⨾ star space
          ⨾ chr b'&'
          ⨾ star space
          ⨾ chr b'('
          ⨾ star space
          ⨾ chr b')')
        line)
      filename linenum "runtime/operator" 4 (codes "Unary operator& is dangerous.  Do not use it.")
    ++ error_if (occurs (chr b'}' ⨾ star space ⨾ lit "if" ⨾ star space ⨾ chr b'(') line) filename
        linenum "readability/braces" 4
        (codes "Did you mean \"else if\"? If not, start a new line for \"if\".")

-- \b((?:string)?printf)\s*\( in any case
abbrev pub re_printf : Regex
re_printf =
    boundary
    ⨾ group 1 (opt (in_any_case (codes "string")) ⨾ in_any_case (codes "printf"))
    ⨾ star space
    ⨾ chr b'('

-- ([\w.\->()]+)$
abbrev pub re_printf_argument : Regex
re_printf_argument = group 1 (plus (one (λ d. is_word d) ⊕ in_set ".->()")) ⨾ end

abbrev pub format_report : Text → ℕ → Found → Option Found → List Action
format_report filename linenum m none = []
format_report filename linenum m (some f) =
    error_if (not (text_eq (group_text m 1) (codes "__VA_ARGS__"))) filename linenum
      "runtime/printf" 4
      (codes "Potential format string bug. Do "
        ++ group_text f 1
        ++ codes "(\"%s\", "
        ++ group_text m 1
        ++ codes ") instead.")

abbrev pub format_actions : Text → ℕ → Text → Option Found → List Action
format_actions filename linenum line none = []
format_actions filename linenum line (some m) =
    format_report filename linenum m (search_in re_printf line)

-- The pattern ends with the parenthesis, so the assertion of `_GetTextInside` holds. An empty argument does not match.
abbrev pub argument_actions : Text → ℕ → Text → TextInside → List Action
argument_actions filename linenum line (text_inside printf_args) =
    format_actions filename linenum line (match re_printf_argument printf_args)
argument_actions filename linenum line nothing_inside = []
argument_actions filename linenum line assertion_fails = []

unfoldable pub check_format_string : Text → ℕ → Text → List Action
unfolding error_if get_text_inside match search_in group_text text_eq to_lower
check_format_string filename linenum line =
    argument_actions filename linenum line (get_text_inside line re_printf)

-- memset\s*\(([^,]*),\s*([^,]*),\s*0\s*\)
abbrev pub re_memset : Regex
re_memset =
    lit "memset"
    ⨾ star space
    ⨾ chr b'('
    ⨾ group 1 (star (not_in_set ","))
    ⨾ chr b','
    ⨾ star space
    ⨾ group 2 (star (not_in_set ","))
    ⨾ chr b','
    ⨾ star space
    ⨾ chr b'0'
    ⨾ star space
    ⨾ chr b')'

-- ^''|-?[0-9]+|0x[0-9A-Fa-f]$
abbrev re_memset_value : Regex
re_memset_value =
    start ⨾ lit "''"
    ⊕ opt (chr b'-') ⨾ plus digit
    ⊕ lit "0x" ⨾ in_set "0123456789ABCDEFabcdef" ⨾ end

abbrev pub memset_actions : Text → ℕ → Option Found → List Action
memset_actions filename linenum none = []
memset_actions filename linenum (some m) =
    error_if (not (matches re_memset_value (group_text m 2))) filename linenum "runtime/memset" 4 (
      codes "Did you mean \"memset("
      ++ group_text m 1
      ++ codes ", 0, "
      ++ group_text m 2
      ++ codes ")\"?")

unfoldable pub check_memset : Text → ℕ → Text → List Action
unfolding error_if search_in matches group_text
check_memset filename linenum line = memset_actions filename linenum (search_in re_memset line)

unfoldable pub check_using_namespace : Text → ℕ → Text → List Action
unfolding error_if occurs
check_using_namespace filename linenum line =
    error_if (occurs (word (lit "using namespace")) line) filename linenum "build/namespaces" 5
      (codes "Do not use namespace using-directives.  " ++ codes "Use using-declarations instead.")
