-- ===== src/Spacing/Calls.antt =====
-- scripts/cpplint.py: `CheckSpacingForFunctionCall`.
use dmanix.Base.{
  ℕ, Bool, true, not, ◌&&◌, none, some, List, [], ◌∷◌, ◌++◌, Text, codes, is_ascii_space, ◌==◌,
  ◌||◌, if◌then◌else◌,
}
use dmanix.Regex.{Regex, one, group, star, look_not, start, end, boundary}
use dmanix.Regex.Chars.{
  ◌⨾◌, ◌⊕◌, chr, lit, one_of, in_set, not_in_set, dot, space, word_char, plus, opt,
}
use dmanix.Regex.Search.{search_in, occurs, group_text}
use dmanix.Lint.{Action}
use dmanix.Lint.Report.{error_if}

-- \bif\s*\((.*)\)\s*{ and its like
abbrev condition_of : Regex → Regex → Regex
condition_of keyword behind =
    boundary ⨾ keyword ⨾ star space ⨾ chr b'(' ⨾ group 1 (star dot) ⨾ chr b')' ⨾ star space ⨾ behind

abbrev control_patterns : List Regex
control_patterns =
    condition_of (lit "if") (chr b'{')
    ∷ condition_of (lit "for") (chr b'{')
    ∷ condition_of (lit "while") (in_set "{;")
    ∷ condition_of (lit "switch") (chr b'{')
    ∷ []

-- The loop over the patterns, which stops at the first that occurs.
unfoldable pub inside_control : Text → List Regex → Text
unfolding search_in group_text
inside_control line [] = line
inside_control line (r ∷ rs) = elim (search_in r line) [
  | none ↦ inside_control line rs
  | some m ↦ group_text m 1
]

-- \b(if|for|while|switch|return|delete)\b
abbrev re_control : Regex
re_control =
    boundary
    ⨾ group 1 (one_of "if" ("for" ∷ "while" ∷ "switch" ∷ "return" ∷ "delete" ∷ []))
    ⨾ boundary

--  \([^)]+\)\([^)]*(\)|,$)
abbrev re_function_pointer : Regex
re_function_pointer =
    lit " ("
    ⨾ plus (not_in_set ")")
    ⨾ lit ")("
    ⨾ star (not_in_set ")")
    ⨾ group 1 (chr b')' ⊕ chr b',' ⨾ end)

--  \([^)]+\)\[[^\]]+\]
abbrev re_array_pointer : Regex
re_array_pointer = lit " (" ⨾ plus (not_in_set ")") ⨾ lit ")[" ⨾ plus (not_in_set "]") ⨾ chr b']'

unfoldable pub is_plain_call : Text → Bool
unfolding occurs
is_plain_call fncall =
    not (occurs re_control fncall)
    && not (occurs re_function_pointer fncall)
    && not (occurs re_array_pointer fncall)

-- \w\s*\(\s(?!\s*\\$)
abbrev re_space_after_call : Regex
re_space_after_call =
    word_char ⨾ star space ⨾ chr b'(' ⨾ space ⨾ look_not (star space ⨾ chr 92 ⨾ end)

-- \(\s+(?!(\s*\\)|\()
abbrev re_space_after_paren : Regex
re_space_after_paren = chr b'(' ⨾ plus space ⨾ look_not (group 1 (star space ⨾ chr 92) ⊕ chr b'(')

-- \w\s+\(, neither #\s*define|typedef nor \w\s+\((\w+::)?\*\w+\)\(
unfoldable pub space_before_call : Text → Bool
unfolding occurs
space_before_call fncall =
    occurs (word_char ⨾ plus space ⨾ chr b'(') fncall
    && not (occurs (chr b'#' ⨾ star space ⨾ lit "define" ⊕ lit "typedef") fncall)
    && not (
        occurs
          (word_char
            ⨾ plus space
            ⨾ chr b'('
            ⨾ opt (group 1 (plus word_char ⨾ lit "::"))
            ⨾ chr b'*'
            ⨾ plus word_char
            ⨾ lit ")(")
          fncall)

-- [^)]\s+\)\s*[^{\s]
abbrev re_space_before_close : Regex
re_space_before_close =
    not_in_set ")"
    ⨾ plus space
    ⨾ chr b')'
    ⨾ star space
    ⨾ one (λ d. not (is_ascii_space d || d == b'{'))

abbrev call_actions : Text → Text → ℕ → List Action
call_actions filename fncall linenum =
    (if occurs re_space_after_call fncall
      then error_if true filename linenum "whitespace/parens" 4
          (codes "Extra space after ( in function call")
      else error_if (occurs re_space_after_paren fncall) filename linenum "whitespace/parens" 2
          (codes "Extra space after ("))
    ++ error_if (space_before_call fncall) filename linenum "whitespace/parens" 4
        (codes "Extra space before ( in function call")
    ++ (if occurs re_space_before_close fncall
        then if occurs (start ⨾ plus space ⨾ chr b')') fncall
          then error_if true filename linenum "whitespace/parens" 2
              (codes "Closing ) should be moved to the previous line")
          else error_if true filename linenum "whitespace/parens" 2 (codes "Extra space before )")
        else [])

-- CheckSpacingForFunctionCall(filename, line, linenum, error)
unfoldable pub check_spacing_for_function_call : Text → Text → ℕ → List Action
unfolding error_if occurs inside_control is_plain_call space_before_call
check_spacing_for_function_call filename line linenum =
    let fncall = inside_control line control_patterns in
    if is_plain_call fncall then call_actions filename fncall linenum else []
