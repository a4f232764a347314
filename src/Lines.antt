-- ===== src/Lines.antt =====
-- scripts/cpplint.py: `IsCppString`, `CleanseComments` and the class `CleansedLines`.
pub mod Shape
use mathlib.Core.Bool.{not}
use dmanix.Base.{
  ℕ, ◌+◌, ◌-◌, ◌%◌, Bool, true, false, ◌&&◌, Option, none, some, List, [], ◌∷◌, ◌++◌, map, Text,
  codes, find, replace, count, count_char, rstrip, take, length, ◌==◌, if◌then◌else◌,
}
use dmanix.Regex.{Regex, one, group, star, look, end}
use dmanix.Regex.Chars.{◌⨾◌, ◌⊕◌, chr, lit, in_set, not_in_set, dot, space, digit, non_word, plus}
use dmanix.Regex.Search.{matches, sub}
use dmanix.Headers.Line.{re_include}

-- \\([abfnrtv?"\\\']|\d+|x[0-9a-fA-F]+)
abbrev re_escapes : Regex
re_escapes =
    chr 92
    ⨾ group 1
        (in_set "abfnrtv?\"\\'" ⊕ plus digit ⊕ chr b'x' ⨾ plus (in_set "0123456789abcdefABCDEF"))

-- "[^"]*"
abbrev re_double_quotes : Regex
re_double_quotes = chr 34 ⨾ star (not_in_set "\"") ⨾ chr 34

-- '.'
abbrev re_single_quotes : Regex
re_single_quotes = chr 39 ⨾ dot ⨾ chr 39

-- /\*.*\*/
abbrev comment_body : Regex
comment_body = lit "/*" ⨾ star dot ⨾ lit "*/"

-- (\s*/\*.*\*/\s*$|/\*.*\*/\s+|\s+/\*.*\*/(?=\W)|/\*.*\*/)
abbrev re_c_comments : Regex
re_c_comments = group 1 (
    star space ⨾ comment_body ⨾ star space ⨾ end
    ⊕ comment_body ⨾ plus space
    ⊕ plus space ⨾ comment_body ⨾ look non_word
    ⊕ comment_body)

-- `(a - b - c) & 1` of numbers where `b + c` may pass `a`: the parity of the sum.
abbrev odd_difference : ℕ → ℕ → ℕ → Bool
odd_difference a b c = (a + b + c) % 2 == 1

unfoldable pub is_cpp_string : Text → Bool
unfolding replace count count_char
is_cpp_string line =
    let plain = replace (codes "\\\\") (codes "XX") line in
    odd_difference (count_char 34 plain) (count (codes "\\\"") plain) (count (codes "'\"'") plain)

abbrev cut_comment : Text → Option ℕ → Text
cut_comment line none = line
cut_comment line (some commentpos) =
    if is_cpp_string (take commentpos line) then line else rstrip (take commentpos line)

unfoldable pub cleanse_comments : Text → Text
unfolding is_cpp_string find rstrip sub
cleanse_comments line = sub re_c_comments [] (cut_comment line (find line (codes "//")))

unfoldable pub collapse_strings : Text → Text
unfolding matches sub
collapse_strings elided =
    if matches re_include elided
    then elided
    else sub re_double_quotes (codes "\"\"")
        (sub re_single_quotes (codes "''") (sub re_escapes [] elided))

pub record CleansedLines : Type 0 where
  pub elided : List Text
  pub lines : List Text
  pub raw_lines : List Text
  pub num_lines : ℕ

-- CleansedLines(lines)
unfoldable pub cleansed_lines : List Text → CleansedLines
unfolding cleanse_comments collapse_strings
cleansed_lines lines = record {
  elided = map (λ l. cleanse_comments (collapse_strings l)) lines;
  lines = map cleanse_comments lines;
  raw_lines = lines;
  num_lines = length lines;
}
