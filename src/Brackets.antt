-- ===== src/Brackets.antt =====
-- scripts/cpplint.py: the search for the bracket that closes an expression.
pub mod Scan
pub mod Across
pub mod Close
mod Examples
use dmanix.Base.{
  ℕ, zero, suc, ◌+◌, Bool, true, false, Option, none, some, List, [], ◌∷◌, Text, codes, count_char,
  drop, get_elem?, ◌==◌, if◌then◌else◌, mem_char, map_option,
}
use dmanix.Base.Int.{ℤ, sub_ℕ, ◌+ℤ◌, up, down, is_zero, at_most_zero}
use dmanix.Lines.{CleansedLines}

-- The loop of FindEndOfExpressionInLine over the characters from `startpos` on: the number of them up
-- to and with the closing one, `none` for -1.
unfoldable pub scan_end : ℤ → ℕ → ℕ → Text → Option ℕ
scan_end depth startchar endchar [] = none
scan_end depth startchar endchar (c ∷ s) =
    let deeper = map_option suc (scan_end (up depth) startchar endchar s) in
    let shallower = map_option suc (scan_end (down depth) startchar endchar s) in
    let level = map_option suc (scan_end depth startchar endchar s) in
    if c == startchar
    then deeper
    else if c == endchar
    then (if is_zero (down depth) then some 1 else shallower)
    else level

unfoldable pub find_end_of_expression_in_line : Text → ℕ → ℤ → ℕ → ℕ → Option ℕ
unfolding scan_end
find_end_of_expression_in_line line startpos depth startchar endchar =
    map_option (λ n. startpos + n) (scan_end depth startchar endchar (drop startpos line))

-- The pointer past the closing bracket: the line, its number, and the position, `none` for -1.
pub record Closed : Type 0 where
  pub line : Text
  pub linenum : ℕ
  pub end_pos : Option ℕ

-- line.count(startchar) - line.count(endchar)
abbrev pub open_count : ℕ → ℕ → Text → ℤ
open_count startchar endchar s = sub_ℕ (count_char startchar s) (count_char endchar s)

-- The while loop, over the lines behind line `linenum`, which is `line`.
unfoldable pub close_later : ℕ → ℕ → Text → ℤ → ℕ → ℕ → List Text → Closed
unfolding find_end_of_expression_in_line ◌+ℤ◌ count_char
close_later num_lines linenum line num_open startchar endchar [] = record {
  line = line;
  linenum = num_lines;
  end_pos = none;
}
close_later num_lines linenum line num_open startchar endchar (x ∷ xs) =
    let rest =
      close_later num_lines (linenum + 1) x (num_open +ℤ open_count startchar endchar x) startchar
        endchar xs in
    if at_most_zero (num_open +ℤ open_count startchar endchar x)
    then record {
      line = x;
      linenum = linenum + 1;
      end_pos = find_end_of_expression_in_line x 0 num_open startchar endchar;
    }
    else rest

abbrev pub close_bracket : CleansedLines → ℕ → Text → ℕ → ℕ → ℕ → Option ℕ → Closed
close_bracket clean linenum line pos startchar endchar (some end_pos) = record {
  line = line;
  linenum = linenum;
  end_pos = some end_pos;
}
close_bracket clean linenum line pos startchar endchar none =
    close_later clean.num_lines linenum line (open_count startchar endchar (drop pos line))
      startchar endchar (drop (suc linenum) clean.elided)

abbrev endchar_of : ℕ → Option ℕ
endchar_of startchar =
    if startchar == b'('
    then some b')'
    else if startchar == b'['
    then some b']'
    else if startchar == b'{'
    then some b'}'
    else none

abbrev close_at : CleansedLines → ℕ → Text → ℕ → ℕ → Option ℕ → Closed
close_at clean linenum line pos startchar none = record {
  line = line;
  linenum = clean.num_lines;
  end_pos = none;
}
close_at clean linenum line pos startchar (some endchar) =
    close_bracket clean linenum line pos startchar endchar
      (find_end_of_expression_in_line line pos (ℤ.pos 0) startchar endchar)

abbrev close_in_line : CleansedLines → ℕ → ℕ → Text → Option ℕ → Option Closed
close_in_line clean linenum pos line none = none
close_in_line clean linenum pos line (some startchar) =
    some (close_at clean linenum line pos startchar (endchar_of startchar))

abbrev close_from : CleansedLines → ℕ → ℕ → Option Text → Option Closed
close_from clean linenum pos none = none
close_from clean linenum pos (some line) = close_in_line clean linenum pos line (get_elem? line pos)

-- CloseExpression(clean_lines, linenum, pos); `none` is an IndexError for a line or a position that is
-- not there. The loop's end is taken from the list of lines, which has `num_lines` of them.
unfoldable pub close_expression : CleansedLines → ℕ → ℕ → Option Closed
unfolding close_later find_end_of_expression_in_line count_char
close_expression clean linenum pos = close_from clean linenum pos (get_elem? clean.elided linenum)
