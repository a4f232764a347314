-- ===== src/Whole.antt =====
-- scripts/cpplint.py: what `ProcessFile` does to the text of a file before the checks, and the checks
-- that look at the whole file: `CheckForCopyright`, `CheckForUnicodeReplacementCharacters` and
-- `CheckForNewlineAtEOF`.
pub mod Proper
pub mod Newline
pub mod Returns
pub mod Copyright
mod Examples
use dmanix.Base.{
  ℕ, zero, suc, ◌+◌, ◌-◌, Bool, true, false, ◌||◌, Option, none, some, List, [], ◌∷◌, ◌++◌, Text,
  String, codes, length, take, drop, any, mem_char, ends_with, split_char, reverse, to_lower, ltb,
  ◌==◌, if◌then◌else◌,
}
use dmanix.Paths.{rstrip_char}
use dmanix.Regex.{Regex, one, empty, seq}
use dmanix.Regex.Search.{occurs}
use dmanix.Lint.{Action, report}

-- The loop of ProcessFile that removes trailing '\r': the lines, and carriage_return_found.
unfoldable pub remove_returns : List Text → List Text × Bool
unfolding rstrip_char ends_with
remove_returns [] = ([], false)
remove_returns (line ∷ lines) =
    let (rest, found) = remove_returns lines in
    if ends_with line (13 ∷ []) then (rstrip_char 13 line ∷ rest, true) else (line ∷ rest, found)

-- The lines of the text that has been read.
unfoldable pub read_lines : Text → List Text × Bool
unfolding remove_returns split_char
read_lines text = remove_returns (split_char 10 text)

-- The lines of ProcessFileData, between its markers.
unfoldable pub with_markers : List Text → List Text
with_markers lines =
    codes "// marker so line numbers and indices both start at 1" ∷ lines
    ++ codes "// marker so line numbers end in a known way" ∷ []

-- A word in any case; `word` is in small letters.
abbrev pub in_any_case : Text → Regex
in_any_case [] = empty
in_any_case (c ∷ word) = seq (one (λ d. to_lower d == c)) (in_any_case word)

-- re.search(r'Copyright', line, re.I)
unfoldable pub names_copyright : Text → Bool
unfolding occurs to_lower
names_copyright line = occurs (in_any_case (codes "copyright")) line

-- CheckForCopyright(filename, lines, error): lines 1 to 10, where they are there.
unfoldable pub check_for_copyright : Text → List Text → List Action
unfolding any names_copyright
check_for_copyright filename lines =
    if any names_copyright (take 10 (drop 1 lines))
    then []
    else report filename 0 (codes "legal/copyright") 5 (
        codes "No copyright message found.  "
        ++ codes "You should have a line: \"Copyright [year] <Copyright Owner>\"")
      ∷ []

abbrev pub utf8_report : Text → ℕ → Action
utf8_report filename linenum =
    report filename linenum (codes "readability/utf8") 5
      (codes "Line contains invalid UTF-8 (or Unicode replacement character).")

-- The loop of CheckForUnicodeReplacementCharacters, from line `linenum` on.
unfoldable pub check_utf8_from : Text → ℕ → List Text → List Action
unfolding mem_char
check_utf8_from filename linenum [] = []
check_utf8_from filename linenum (line ∷ lines) =
    let rest = check_utf8_from filename (linenum + 1) lines in
    if mem_char 65533 line then utf8_report filename linenum ∷ rest else rest

unfoldable pub check_for_unicode_replacement_characters : Text → List Text → List Action
unfolding check_utf8_from
check_for_unicode_replacement_characters filename lines = check_utf8_from filename 0 lines

-- lines[-2], for at least two lines
abbrev pub second_last : List Text → Text
second_last [] = []
second_last (x ∷ []) = []
second_last (x ∷ y ∷ []) = x
second_last (x ∷ y ∷ z ∷ s) = second_last (y ∷ z ∷ s)

abbrev pub is_empty : Text → Bool
is_empty [] = true
is_empty (_ ∷ _) = false

-- CheckForNewlineAtEOF(filename, lines, error); with its markers a file has at least two lines.
unfoldable pub check_for_newline_at_eof : Text → List Text → List Action
check_for_newline_at_eof filename lines =
    let complain =
      report filename (length lines - 2) (codes "whitespace/ending_newline") 5
        (codes "Could not find a newline character at the end of the file.")
      ∷ [] in
    if ltb (length lines) 3 then complain else if is_empty (second_last lines) then [] else complain
