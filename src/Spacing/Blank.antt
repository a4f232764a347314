-- ===== src/Spacing/Blank.antt =====
-- scripts/cpplint.py: what `CheckSpacing` says of blank lines.
use dmanix.Base.{
  ℕ, zero, suc, ◌-◌, ◌+◌, Bool, true, false, not, ◌&&◌, ◌||◌, Option, none, some, List, [], ◌∷◌,
  ◌++◌, Text, codes, text_eq, get_or, find, length, drop, take, ltb, is_some, is_nil_text, ◌==◌,
  if◌then◌else◌,
}
use dmanix.Regex.{Regex, group, star, end}
use dmanix.Regex.Chars.{◌⨾◌, ◌⊕◌, chr, lit, one_of, not_in_set, space, word_char, opt}
use dmanix.Regex.Search.{Found, match, matches, group_text}
use dmanix.Lint.{Action}
use dmanix.Lint.Report.{error_if}
use dmanix.Lines.{CleansedLines}

-- lines[linenum - 1], which is the last line for the line number 0
abbrev pub line_before : List Text → ℕ → Text
line_before lines zero = get_or lines (length lines - 1) []
line_before lines (suc n) = get_or lines n []

-- s.rfind(c)
unfoldable pub rfind_char : ℕ → Text → Option ℕ
rfind_char c [] = none
rfind_char c (x ∷ s) = elim (rfind_char c s) [
  | none ↦ if x == c then some 0 else none
  | some i ↦ some (suc i)
]

abbrev unclosed_from : Text → Option ℕ → Bool
unclosed_from line none = false
unclosed_from line (some brace) = not (is_some (find (drop brace line) (codes "}")))

-- prevbrace != -1 and prev_line[prevbrace:].find('}') == -1
unfoldable pub opens_block : Text → Bool
unfolding rfind_char find
opens_block prev_line = unclosed_from prev_line (rfind_char b'{' prev_line)

-- ` {6}\w`
abbrev re_six_spaces : Regex
re_six_spaces = lit "      " ⨾ word_char

-- The loop upwards over the lines that stand before line `n`, and the test of the line where it ends.
unfoldable pub list_opened : List Text → ℕ → Bool
unfolding matches text_eq
list_opened elided zero = false
list_opened elided (suc n) =
    let rest = list_opened elided n in
    let line = get_or elided n [] in
    if matches re_six_spaces line then rest else text_eq (take 5 line) (codes "    :")

-- ` {4}\w[^\(]*\)\s*(const\s*)?(\{\s*$|:)`
abbrev re_header_end : Regex
re_header_end =
    lit "    "
    ⨾ word_char
    ⨾ star (not_in_set "(")
    ⨾ chr b')'
    ⨾ star space
    ⨾ opt (group 1 (lit "const" ⨾ star space))
    ⨾ group 2 (chr b'{' ⨾ star space ⨾ end ⊕ chr b':')

-- `exception`
unfoldable pub is_header_end : List Text → ℕ → Text → Bool
unfolding matches list_opened
is_header_end elided linenum prev_line =
    if matches re_six_spaces prev_line
    then list_opened elided (linenum - 1)
    else matches re_header_end prev_line || matches (lit "    :") prev_line

-- The next line of the file ends a block, and no `else` goes on behind it.
unfoldable pub ends_block : Text → Bool
unfolding matches find
ends_block next_line =
    not (is_nil_text next_line)
    && matches (star space ⨾ chr b'}') next_line
    && not (is_some (find next_line (codes "} else ")))

-- \s*(public|protected|private):
abbrev pub re_access : Regex
re_access = star space ⨾ group 1 (one_of "public" ("protected" ∷ "private" ∷ [])) ⨾ chr b':'

abbrev pub access_report : Text → ℕ → Option Found → List Action
access_report filename linenum none = []
access_report filename linenum (some m) =
    error_if true filename linenum "whitespace/blank_line" 3
      (codes "Do not leave a blank line after \"" ++ group_text m 1 ++ codes ":\"")

-- The body of `if IsBlankLine(line) and not nesting_state.InNamespaceBody()`.
unfoldable pub check_blank_line : Text → CleansedLines → ℕ → List Action
unfolding error_if opens_block is_header_end ends_block match group_text
check_blank_line filename clean linenum =
    let prev_line = line_before clean.elided linenum in
    error_if (opens_block prev_line && not (is_header_end clean.elided linenum prev_line)) filename
      linenum "whitespace/blank_line" 2
      (codes "Blank line at the start of a code block.  Is this needed?")
    ++ error_if
        (ltb (linenum + 1) clean.num_lines && ends_block (get_or clean.raw_lines (linenum + 1) []))
        filename linenum "whitespace/blank_line" 3
        (codes "Blank line at the end of a code block.  Is this needed?")
    ++ access_report filename linenum (match re_access prev_line)
