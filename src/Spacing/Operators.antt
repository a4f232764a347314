-- ===== src/Spacing/Operators.antt =====
-- scripts/cpplint.py: what `CheckSpacing` says of operators. The line is the one with `operator==(` and its
-- like taken out.
use dmanix.Base.{
  ℕ, Bool, true, false, not, ◌&&◌, ◌||◌, Option, none, some, List, [], ◌∷◌, ◌++◌, Text, codes, all,
  replace, is_ascii_space, mem_char, ◌==◌, if◌then◌else◌,
}
use dmanix.Regex.{Regex, one, group, star, start, boundary, is_word}
use dmanix.Regex.Chars.{◌⨾◌, ◌⊕◌, chr, lit, one_of, dot, space, non_space, opt, is_digit}
use dmanix.Regex.Search.{Found, search_in, matches, occurs, group_text, sub}
use dmanix.Lint.{Action}
use dmanix.Lint.Report.{error_if, error_with_group}
use dmanix.Lines.{CleansedLines}
use dmanix.Angles.{find_next_matching_angle_bracket, find_previous_matching_angle_bracket}

-- operator(==|!=|<|<<|<=|>=|>>|>)\(
abbrev re_operator_method : Regex
re_operator_method =
    lit "operator"
    ⨾ group 1 (one_of "==" ("!=" ∷ "<" ∷ "<<" ∷ "<=" ∷ ">=" ∷ ">>" ∷ ">" ∷ []))
    ⨾ chr b'('

-- re.sub(…, 'operator\(', line). The new text keeps its backslash, which escapes nothing there.
unfoldable pub without_operator_methods : Text → Text
unfolding sub
without_operator_methods line = sub re_operator_method (codes "operator\\(") line

-- [\w.]
abbrev word_or_dot : Regex
word_or_dot = one (λ d. is_word d || d == b'.')

unfoldable pub tight_assignment : Text → Bool
unfolding occurs
tight_assignment line =
    occurs (word_or_dot ⨾ chr b'=' ⨾ word_or_dot) line
    && not (occurs (boundary ⨾ group 1 (lit "if" ⊕ lit "while") ⨾ chr 32) line)

-- Neither white space nor one of the characters.
abbrev plain_char : Text → Regex
plain_char excluded = one (λ d. not (mem_char d excluded || is_ascii_space d))

-- [^<>=!\s](==|!=|<=|>=)[^<>=!\s]
abbrev re_comparison : Regex
re_comparison =
    plain_char (codes "<>=!")
    ⨾ group 1 (one_of "==" ("!=" ∷ "<=" ∷ ">=" ∷ []))
    ⨾ plain_char (codes "<>=!")

-- (\S)(?:L|UL|ULL|l|ul|ull)?<<(\S)
abbrev re_shift : Regex
re_shift =
    group 1 non_space
    ⨾ opt (one_of "L" ("UL" ∷ "ULL" ∷ "l" ∷ "ul" ∷ "ull" ∷ []))
    ⨾ lit "<<"
    ⨾ group 2 non_space

-- [^\s<]<([^\s=<].*)
abbrev re_less : Regex
re_less = plain_char (codes "<") ⨾ chr b'<' ⨾ group 1 (plain_char (codes "=<") ⨾ star dot)

-- ^(.*[^\s>])>[^\s=>]
abbrev re_greater : Regex
re_greater =
    start ⨾ group 1 (star dot ⨾ plain_char (codes ">")) ⨾ chr b'>' ⨾ plain_char (codes "=>")

-- `match and not FindNext…(…, match.group(1))`. Both loops always answer.
unfoldable pub unmatched : Option Found → (Text → Option Bool) → Bool
unfolding group_text
unmatched none find_matching = false
unmatched (some m) find_matching = elim (find_matching (group_text m 1)) [
  | none ↦ false
  | some b ↦ not b
]

-- c.isdigit() of one ASCII character
abbrev is_digits : Text → Bool
is_digits [] = false
is_digits (c ∷ s) = all is_digit (c ∷ s)

-- A shift with something next to it on both sides that is not two digits.
unfoldable pub tight_shift : Option Found → Bool
unfolding group_text all
tight_shift none = false
tight_shift (some m) = not (is_digits (group_text m 1) && is_digits (group_text m 2))

-- The `elif` branch: < and > that nothing matches.
unfoldable pub check_angles : Text → CleansedLines → ℕ → Text → List Action
unfolding error_if search_in unmatched find_next_matching_angle_bracket
    find_previous_matching_angle_bracket
check_angles filename clean linenum reduced_line =
    error_if
      (unmatched (search_in re_less reduced_line) (find_next_matching_angle_bracket clean linenum))
      filename linenum "whitespace/operators" 3 (codes "Missing spaces around <")
    ++ error_if
        (unmatched (search_in re_greater reduced_line)
          (find_previous_matching_angle_bracket clean linenum))
        filename linenum "whitespace/operators" 3 (codes "Missing spaces around >")

-- (!\s|~\s|[\s]--[\s;]|[\s]\+\+[\s;])
abbrev re_unary : Regex
re_unary =
    let behind = space ⊕ chr b';' in
    group 1
      (chr b'!' ⨾ space ⊕ chr b'~' ⨾ space ⊕ space ⨾ lit "--" ⨾ behind ⊕ space ⨾ lit "++" ⨾ behind)

unfoldable pub check_operator_spacing : Text → CleansedLines → ℕ → Text → List Action
unfolding error_if error_with_group tight_assignment tight_shift check_angles search_in matches
    occurs replace
check_operator_spacing filename clean linenum line =
    error_if (tight_assignment line) filename linenum "whitespace/operators" 4
      (codes "Missing spaces around =")
    ++ error_with_group filename linenum "whitespace/operators" 3 "Missing spaces around "
        (search_in re_comparison line)
    ++ (if tight_shift (search_in re_shift line)
        then error_if true filename linenum "whitespace/operators" 3
            (codes "Missing spaces around <<")
        else if not (matches (chr b'#' ⨾ star dot ⨾ lit "include") line)
        then check_angles filename clean linenum (replace (codes "->") [] line)
        else [])
    ++ error_if (occurs (lit ">>" ⨾ one (λ d. is_word d && not (is_digit d))) line) filename linenum
        "whitespace/operators" 3 (codes "Missing spaces around >>")
    ++ error_with_group filename linenum "whitespace/operators" 4 "Extra space for operator "
        (search_in re_unary line)
