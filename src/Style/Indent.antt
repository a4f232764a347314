-- ===== src/Style/Indent.antt =====
-- scripts/cpplint.py: what `CheckStyle` says of the white space at the two ends of a line, and of labels.
use dmanix.Base.{
  ℕ, suc, Bool, true, false, not, ◌&&◌, ◌||◌, List, [], ◌∷◌, ◌++◌, Text, codes, text_eq, take,
  is_space, ◌==◌, if◌then◌else◌,
}
use dmanix.Regex.{Regex, star, end}
use dmanix.Regex.Chars.{◌⨾◌, chr, not_in_set, space, word_char, plus}
use dmanix.Regex.Search.{matches, occurs}
use dmanix.Lint.{Action}
use dmanix.Lint.Report.{error_if}

-- The loop that counts the spaces in front.
unfoldable pub initial_spaces : Text → ℕ
initial_spaces [] = 0
initial_spaces (c ∷ line) = let rest = initial_spaces line in if c == 32 then suc rest else 0

-- line and line[-1].isspace()
unfoldable pub ends_in_space : Text → Bool
unfolding is_space
ends_in_space [] = false
ends_in_space (c ∷ []) = is_space c
ends_in_space (c ∷ d ∷ line) = ends_in_space (d ∷ line)

-- \s*\w+\s*:\s*$
abbrev re_label : Regex
re_label = star space ⨾ plus word_char ⨾ star space ⨾ chr b':' ⨾ star space ⨾ end

-- One space or three, and no label.
unfoldable pub is_weird_indent : Text → Text → Bool
unfolding initial_spaces matches
is_weird_indent line cleansed_line =
    (initial_spaces line == 1 || initial_spaces line == 3) && not (matches re_label cleansed_line)

-- [^:]:\s*$ at the left margin, outside a comment
unfoldable pub is_flush_label : Text → Bool
unfolding initial_spaces text_eq occurs
is_flush_label line =
    initial_spaces line == 0
    && not (text_eq (take 2 line) (codes "//"))
    && occurs (not_in_set ":" ⨾ chr b':' ⨾ star space ⨾ end) line

-- The three branches on the white space of the line.
unfoldable pub check_line_start : Text → ℕ → Text → Text → List Action
unfolding error_if ends_in_space is_weird_indent is_flush_label
check_line_start filename linenum line cleansed_line =
    if ends_in_space line
    then error_if true filename linenum "whitespace/end_of_line" 4
        (codes "Line ends in whitespace.  Consider deleting these extra spaces.")
    else if is_weird_indent line cleansed_line
    then error_if true filename linenum "whitespace/indent" 3
        (codes "Weird number of spaces at line-start.  " ++ codes "Are you using a 2-space indent?")
    else error_if (is_flush_label line) filename linenum "whitespace/labels" 4 (
        codes "Labels should always be indented at least one space.  "
        ++ codes "If this is a member-initializer list in a constructor or "
        ++ codes "the base class list in a class definition, the colon should "
        ++ codes "be on the following line.")
