-- ===== src/Spacing/Parens.antt =====
-- scripts/cpplint.py: what `CheckSpacing` says of parentheses, commas, semicolons, braces, brackets and colons.
use dmanix.Base.{
  ℕ, ◌+◌, Bool, true, not, ◌&&◌, ◌||◌, Option, none, some, List, [], ◌∷◌, ◌++◌, Text, codes, length,
  text_eq, is_nil_text, ltb, is_ascii_space, mem_char, ◌==◌, if◌then◌else◌,
}
use dmanix.Regex.{Regex, one, group, star, start, end, boundary}
use dmanix.Regex.Chars.{◌⨾◌, chr, lit, one_of, not_in_set, dot, space, non_space, word_char, plus}
use dmanix.Regex.Search.{Found, search_in, occurs, group_text}
use dmanix.Lint.{Action}
use dmanix.Lint.Report.{error_if, error_with_group}

--  (if\(|for\(|while\(|switch\()
abbrev re_tight_keyword : Regex
re_tight_keyword = chr 32 ⨾ group 1 (one_of "if(" ("for(" ∷ "while(" ∷ "switch(" ∷ []))

-- \b(if|for|while|switch)\s*\(([ ]*)(.).*[^ ]+([ ]*)\)\s*{\s*$
abbrev re_control_head : Regex
re_control_head =
    boundary
    ⨾ group 1 (one_of "if" ("for" ∷ "while" ∷ "switch" ∷ []))
    ⨾ star space
    ⨾ chr b'('
    ⨾ group 2 (star (chr 32))
    ⨾ group 3 dot
    ⨾ star dot
    ⨾ plus (not_in_set " ")
    ⨾ group 4 (star (chr 32))
    ⨾ chr b')'
    ⨾ star space
    ⨾ chr b'{'
    ⨾ star space
    ⨾ end

-- The two forms of `for` that may differ: one space more in front of a leading `;`, and none in front of `; )`.
unfoldable pub is_for_exception : Text → Found → Bool
unfolding group_text text_eq occurs
is_for_exception line m =
    text_eq (group_text m 3) (codes ";") && length (group_text m 2) == 1 + length (group_text m 4)
    || is_nil_text (group_text m 2)
      && occurs (boundary ⨾ lit "for" ⨾ star space ⨾ chr b'(' ⨾ star dot ⨾ lit "; )") line

unfoldable pub check_control_parens : Text → ℕ → Text → Option Found → List Action
unfolding error_if group_text is_for_exception
check_control_parens filename linenum line none = []
check_control_parens filename linenum line (some m) =
    error_if
      (not (length (group_text m 2) == length (group_text m 4)) && not (is_for_exception line m))
      filename linenum "whitespace/parens" 5
      (codes "Mismatching spaces inside () in " ++ group_text m 1)
    ++ error_if (ltb 1 (length (group_text m 2))) filename linenum "whitespace/parens" 5
        (codes "Should have zero or one spaces inside ( and ) in " ++ group_text m 1)

unfoldable pub check_parens : Text → ℕ → Text → List Action
unfolding error_with_group search_in check_control_parens
check_parens filename linenum line =
    error_with_group filename linenum "whitespace/parens" 5 "Missing space before ( in "
      (search_in re_tight_keyword line)
    ++ check_control_parens filename linenum line (search_in re_control_head line)

-- ;[^\s};\\)/]
abbrev re_tight_semicolon : Regex
re_tight_semicolon = chr b';' ⨾ one (λ d. not (is_ascii_space d || mem_char d (codes "};\\)/")))

unfoldable pub check_separators : Text → ℕ → Text → List Action
unfolding error_if occurs
check_separators filename linenum line =
    error_if (occurs (chr b',' ⨾ non_space) line) filename linenum "whitespace/comma" 3
      (codes "Missing space after ,")
    ++ error_if (occurs re_tight_semicolon line) filename linenum "whitespace/semicolon" 3
        (codes "Missing space after ;")

-- \w\s+\[ without delete\s+\[
unfoldable pub space_before_bracket : Text → Bool
unfolding occurs
space_before_bracket line =
    occurs (word_char ⨾ plus space ⨾ chr b'[') line
    && not (occurs (lit "delete" ⨾ plus space ⨾ chr b'[') line)

unfoldable pub check_tight_braces : Text → ℕ → Text → List Action
unfolding error_if occurs space_before_bracket
check_tight_braces filename linenum line =
    error_if (occurs (not_in_set " ({" ⨾ chr b'{') line) filename linenum "whitespace/braces" 5
      (codes "Missing space before {")
    ++ error_if (occurs (lit "}else") line) filename linenum "whitespace/braces" 5
        (codes "Missing space before else")
    ++ error_if (space_before_bracket line) filename linenum "whitespace/braces" 5
        (codes "Extra space before [")

-- \s+;\s*$ without \bfor\b
unfoldable pub space_before_semicolon : Text → Bool
unfolding occurs
space_before_semicolon line =
    occurs (plus space ⨾ chr b';' ⨾ star space ⨾ end) line
    && not (occurs (boundary ⨾ lit "for" ⨾ boundary) line)

unfoldable pub check_last_semicolon : Text → ℕ → Text → List Action
unfolding error_if occurs space_before_semicolon
check_last_semicolon filename linenum line =
    if occurs (chr b':' ⨾ star space ⨾ chr b';' ⨾ star space ⨾ end) line
    then error_if true filename linenum "whitespace/semicolon" 5
        (codes "Semicolon defining empty statement. Use {} instead.")
    else if occurs (start ⨾ star space ⨾ chr b';' ⨾ star space ⨾ end) line
    then error_if true filename linenum "whitespace/semicolon" 5 (
        codes "Line contains only semicolon. If this should be an empty statement, "
        ++ codes "use {} instead.")
    else error_if (space_before_semicolon line) filename linenum "whitespace/semicolon" 5 (
        codes "Extra space before last semicolon. If this should be an empty "
        ++ codes "statement, use {} instead.")

-- for *\(.*[^:]:[^: ] and for *\(.*[^: ]:[^:]
unfoldable pub tight_range_colon : Text → Bool
unfolding occurs
tight_range_colon line =
    let head = lit "for" ⨾ star (chr 32) ⨾ chr b'(' ⨾ star dot in
    occurs (head ⨾ not_in_set ":" ⨾ chr b':' ⨾ not_in_set ": ") line
    || occurs (head ⨾ not_in_set ": " ⨾ chr b':' ⨾ not_in_set ":") line

unfoldable pub check_range_colon : Text → ℕ → Text → List Action
unfolding error_if tight_range_colon
check_range_colon filename linenum line =
    error_if (tight_range_colon line) filename linenum "whitespace/forcolon" 2
      (codes "Missing space around colon in range-based for loop")
