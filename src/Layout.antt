-- ===== src/Layout.antt =====
-- scripts/cpplint.py: `IsBlankLine`, `GetPreviousNonBlankLine` and `CheckBraces`. A line number is
-- `none` for -1. The loop of `CheckBraces` that joins lines runs on fuel, since it may not end.
pub mod Proper
pub mod Previous
pub mod Joining
pub mod Loops
pub mod Sections
mod Examples
use dmanix.Base.{
  ℕ, zero, suc, ◌-◌, ◌+◌, Bool, true, false, not, ◌&&◌, ◌||◌, Option, none, some, List, [], ◌∷◌,
  ◌++◌, Text, String, codes, get_or, length, take, drop, all, find, count_char, is_ascii_space,
  is_space, mem_char, map_option, is_some, ltb, ◌==◌, if◌then◌else◌,
}
use dmanix.Regex.{Regex, one, group, star, start, end, boundary}
use dmanix.Regex.Chars.{◌⨾◌, ◌⊕◌, chr, lit, in_set, not_in_set, dot, space, plus}
use dmanix.Regex.Search.{matches, occurs}
use dmanix.Lint.{Action}
use dmanix.Lint.Report.{error_if}
use dmanix.Lines.{CleansedLines}
use dmanix.Brackets.{Closed, close_expression}

-- IsBlankLine(line)
unfoldable pub is_blank_line : Text → Bool
unfolding all is_space
is_blank_line line = all is_space line

-- The loop of GetPreviousNonBlankLine over the lines before line `n`.
unfoldable pub previous_before : List Text → ℕ → Text × Option ℕ
unfolding is_blank_line
previous_before elided zero = ([], none)
previous_before elided (suc n) =
    let rest = previous_before elided n in
    if is_blank_line (get_or elided n []) then rest else (get_or elided n [], some n)

-- GetPreviousNonBlankLine(clean_lines, linenum), for a line of the file or -1
unfoldable pub get_previous_non_blank_line : List Text → Option ℕ → Text × Option ℕ
unfolding previous_before
get_previous_non_blank_line elided none = ([], none)
get_previous_non_blank_line elided (some n) = previous_before elided n

-- \s+{.*}\s*;
abbrev pub re_indented_braces : Regex
re_indented_braces = plus space ⨾ chr b'{' ⨾ star dot ⨾ chr b'}' ⨾ star space ⨾ chr b';'

-- The test of the loop that joins a line with those before it.
unfoldable pub goes_on : Text → Text → Bool
unfolding matches count_char
goes_on line prevline = matches re_indented_braces line && count_char b';' prevline == 0

-- `line` and `prevlinenum` are the variables of the loop; its result is the last `line`.
unfoldable pub join_lines : ℕ → List Text → Text → Option ℕ → Option Text
unfolding get_previous_non_blank_line goes_on
join_lines zero elided line prevlinenum = none
join_lines (suc fuel) elided line prevlinenum =
    let (prevline, before) = get_previous_non_blank_line elided prevlinenum in
    let joined = join_lines fuel elided (prevline ++ line) before in
    if goes_on line prevline then joined else some line

-- [^\s{]
abbrev not_space_or_brace : Regex
not_space_or_brace = one (λ d. not (is_ascii_space d || d == b'{'))

-- \s*{\s*$ on the line, and neither [;:}{]\s*$ nor \s*# on the one before it
unfoldable pub misplaced_brace : Text → Text → Bool
unfolding matches occurs
misplaced_brace line prevline =
    matches (star space ⨾ chr b'{' ⨾ star space ⨾ end) line
    && not (occurs (in_set ";:}{" ⨾ star space ⨾ end) prevline)
    && not (matches (star space ⨾ chr b'#') prevline)

-- \s*else\s* on the line, \s*}\s*$ on the one before it
unfoldable pub misplaced_else : Text → Text → Bool
unfolding matches
misplaced_else line prevline =
    matches (star space ⨾ lit "else" ⨾ star space) line
    && matches (star space ⨾ chr b'}' ⨾ star space ⨾ end) prevline

-- }\s*else[^{]*$ and [^}]*else\s*{
unfoldable pub brace_on_one_side : Text → Bool
unfolding matches occurs
brace_on_one_side line =
    occurs (chr b'}' ⨾ star space ⨾ lit "else" ⨾ star (not_in_set "{") ⨾ end) line
    || matches (star (not_in_set "}") ⨾ lit "else" ⨾ star space ⨾ chr b'{') line

-- }\s*else if([^{]*)$
abbrev re_else_if : Regex
re_else_if = chr b'}' ⨾ star space ⨾ lit "else if" ⨾ group 1 (star (not_in_set "{")) ⨾ end

-- line[pos:], with the last character for the position -1
abbrev pub tail_from : Text → Option ℕ → Text
tail_from line (some pos) = drop pos line
tail_from line none = drop (length line - 1) line

-- The position of the `(` behind `else if`; both are looked for where the pattern has matched.
abbrev else_if_paren : Text → Option ℕ → Option ℕ
else_if_paren line none = none
else_if_paren line (some pos) = map_option (λ n. pos + n) (find (drop pos line) (codes "("))

abbrev lacks_brace : Option Closed → Bool
lacks_brace none = false
lacks_brace (some c) = not (is_some (find (tail_from c.line c.end_pos) (codes "{")))

abbrev multi_line_if : CleansedLines → ℕ → Option ℕ → Bool
multi_line_if clean linenum none = false
multi_line_if clean linenum (some zero) = false
multi_line_if clean linenum (some (suc pos)) =
    lacks_brace (close_expression clean linenum (suc pos))

unfoldable pub lopsided_else : CleansedLines → ℕ → Text → Bool
unfolding brace_on_one_side occurs find close_expression
lopsided_else clean linenum line =
    brace_on_one_side line
    && (if occurs re_else_if line
        then multi_line_if clean linenum (else_if_paren line (find line (codes "else if")))
        else true)

-- \belse [^\s{] without \belse if\b
unfoldable pub else_on_same_line : Text → Bool
unfolding occurs
else_on_same_line line =
    occurs (boundary ⨾ lit "else " ⨾ not_space_or_brace) line
    && not (occurs (boundary ⨾ lit "else if" ⨾ boundary) line)

-- \s*do [^\s{]
unfoldable pub do_on_same_line : Text → Bool
unfolding matches
do_on_same_line line = matches (star space ⨾ lit "do " ⨾ not_space_or_brace) line

-- {.*}\s*; with as many braces of either kind, without struct|class|enum|\s*=\s*{
unfoldable pub needless_semicolon : Text → Bool
unfolding occurs count_char
needless_semicolon line =
    occurs (chr b'{' ⨾ star dot ⨾ chr b'}' ⨾ star space ⨾ chr b';') line
    && count_char b'{' line == count_char b'}' line
    && not (
        occurs
          (lit "struct" ⊕ lit "class" ⊕ lit "enum" ⊕ star space ⨾ chr b'=' ⨾ star space ⨾ chr b'{')
          line)

abbrev pub finish_braces : Text → ℕ → List Action → Option Text → Option (List Action)
finish_braces filename linenum actions none = none
finish_braces filename linenum actions (some joined) = some (
    actions
    ++ error_if (needless_semicolon joined) filename linenum "readability/braces" 4
        (codes "You don't need a ; after a }"))

-- CheckBraces(filename, clean_lines, linenum, error), up to the loop that joins lines.
abbrev pub brace_actions : Text → CleansedLines → ℕ → Text → Text → List Action
brace_actions filename clean linenum line prevline =
    error_if (misplaced_brace line prevline) filename linenum "whitespace/braces" 4
      (codes "{ should almost always be at the end of the previous line")
    ++ error_if (misplaced_else line prevline) filename linenum "whitespace/newline" 4
        (codes "An else should appear on the same line as the preceding }")
    ++ error_if (lopsided_else clean linenum line) filename linenum "readability/braces" 5
        (codes "If an else has a brace on one side, it should have it on both")
    ++ error_if (else_on_same_line line) filename linenum "whitespace/newline" 4
        (codes "Else clause should never be on same line as else (use 2 lines)")
    ++ error_if (do_on_same_line line) filename linenum "whitespace/newline" 4
        (codes "do/while clauses should not be on a single line")

unfoldable pub check_braces : ℕ → Text → CleansedLines → ℕ → Option (List Action)
unfolding error_if misplaced_brace misplaced_else lopsided_else else_on_same_line do_on_same_line
    needless_semicolon join_lines get_previous_non_blank_line
check_braces fuel filename clean linenum =
    let line = get_or clean.elided linenum [] in
    let prevline = (get_previous_non_blank_line clean.elided (some linenum)).0 in
    finish_braces filename linenum (brace_actions filename clean linenum line prevline)
      (join_lines fuel clean.elided line (some linenum))
