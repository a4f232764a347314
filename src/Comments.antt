-- ===== src/Comments.antt =====
-- scripts/cpplint.py: the removal of multi-line comments, on the list of the file's lines.
pub mod Scan
pub mod Cleared
mod Examples
use mathlib.Core.Bool.{not}
use dmanix.Base.{
  ℕ, zero, suc, ◌+◌, ◌-◌, Bool, true, false, ◌&&◌, Option, none, some, List, [], ◌∷◌, ◌++◌, Text,
  codes, strip, starts_with, ends_with, find, is_some, length, drop, set, leb, if◌then◌else◌,
}
use dmanix.Lint.{Action, report}

-- lines[lineix].strip() starts with '/*', and has no '*/' from its third character on
unfoldable pub begins_comment : Text → Bool
unfolding strip starts_with find
begins_comment line =
    starts_with (strip line) (codes "/*") && not (is_some (find (drop 2 (strip line)) (codes "*/")))

unfoldable pub ends_comment : Text → Bool
unfolding strip ends_with
ends_comment line = ends_with (strip line) (codes "*/")

-- The index of the first line that passes the test, or the number of lines.
unfoldable pub first_index : (Text → Bool) → List Text → ℕ
first_index p [] = 0
first_index p (x ∷ xs) = let rest = suc (first_index p xs) in if p x then 0 else rest

unfoldable pub find_next_multi_line_comment_start : List Text → ℕ → ℕ
unfolding first_index begins_comment
find_next_multi_line_comment_start lines lineix =
    lineix + first_index begins_comment (drop lineix lines)

unfoldable pub find_next_multi_line_comment_end : List Text → ℕ → ℕ
unfolding first_index ends_comment
find_next_multi_line_comment_end lines lineix =
    lineix + first_index ends_comment (drop lineix lines)

abbrev pub dummy : Text
dummy = codes "// dummy"

-- for i in range(begin, begin + n): lines[i] = '// dummy'
unfoldable pub clear_lines : ℕ → ℕ → List Text → List Text
clear_lines zero begin lines = lines
clear_lines (suc n) begin lines = clear_lines n (begin + 1) (set lines begin dummy)

unfoldable pub remove_multi_line_comments_from_range : List Text → ℕ → ℕ → List Text
unfolding clear_lines
remove_multi_line_comments_from_range lines begin end = clear_lines (end - begin) begin lines

abbrev pub no_end_found : Text → ℕ → List Action
no_end_found filename lineix_begin =
    report filename (lineix_begin + 1) (codes "readability/multiline_comment") 5
      (codes "Could not find end of multi-line comment")
    ∷ []

-- The while loop, on fuel: the lines that it leaves, and its report if it makes one.
unfoldable pub remove_from : ℕ → Text → List Text → ℕ → Option (List Text × List Action)
unfolding find_next_multi_line_comment_start find_next_multi_line_comment_end
    remove_multi_line_comments_from_range
remove_from zero filename lines lineix = none
remove_from (suc fuel) filename lines lineix =
    let lineix_begin = find_next_multi_line_comment_start lines lineix in
    let lineix_end = find_next_multi_line_comment_end lines lineix_begin in
    let rest =
      remove_from fuel filename
        (remove_multi_line_comments_from_range lines lineix_begin (lineix_end + 1))
        (lineix_end + 1) in
    if leb (length lines) lineix_begin
    then some (lines, [])
    else if leb (length lines) lineix_end
    then some (lines, no_end_found filename lineix_begin)
    else rest

-- RemoveMultiLineComments(filename, lines, error): a round passes at least one line.
unfoldable pub remove_multi_line_comments : Text → List Text → Option (List Text × List Action)
unfolding remove_from
remove_multi_line_comments filename lines = remove_from (suc (length lines)) filename lines 0
