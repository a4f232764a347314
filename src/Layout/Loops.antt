-- ===== src/Layout/Loops.antt =====
-- scripts/cpplint.py: `CheckEmptyLoopBody`.
use dmanix.Base.{
  ℕ, Option, none, some, List, [], ◌∷◌, Text, codes, get_or, drop, find, starts_with, if◌then◌else◌,
}
use dmanix.Regex.{Regex, group, star}
use dmanix.Regex.Chars.{◌⨾◌, ◌⊕◌, chr, lit, space}
use dmanix.Regex.Search.{matches}
use dmanix.Lint.{Action, report}
use dmanix.Lines.{CleansedLines}
use dmanix.Brackets.{Closed, close_expression}

-- \s*(for|while)\s*\(
abbrev pub re_loop : Regex
re_loop = star space ⨾ group 1 (lit "for" ⊕ lit "while") ⨾ star space ⨾ chr b'('

abbrev pub empty_body : Text → Closed → Option ℕ → List Action
empty_body filename c none = []
empty_body filename c (some end_pos) =
    if starts_with (drop end_pos c.line) (codes ";")
    then report filename c.linenum (codes "whitespace/empty_loop_body") 5
        (codes "Empty loop bodies should use {} or continue")
      ∷ []
    else []

abbrev pub body_of : Text → Option Closed → List Action
body_of filename none = []
body_of filename (some c) = empty_body filename c c.end_pos

-- The pattern has read a `(`, so `find` has a result.
abbrev pub close_first : CleansedLines → ℕ → Option ℕ → Option Closed
close_first clean linenum none = none
close_first clean linenum (some pos) = close_expression clean linenum pos

-- CheckEmptyLoopBody(filename, clean_lines, linenum, error)
unfoldable pub check_empty_loop_body : Text → CleansedLines → ℕ → List Action
unfolding matches find starts_with close_expression
check_empty_loop_body filename clean linenum =
    let line = get_or clean.elided linenum [] in
    if matches re_loop line
    then body_of filename (close_first clean linenum (find line (codes "(")))
    else []
