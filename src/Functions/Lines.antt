-- ===== src/Functions/Lines.antt =====
-- scripts/cpplint.py: `CheckForFunctionLengths`, one line at a time.
use mathlib.Core.Bool.{not}
use dmanix.Base.{
  ℕ, Bool, true, false, ◌&&◌, ◌||◌, Option, none, some, List, [], ◌∷◌, ◌++◌, Text, codes, text_eq,
  lstrip, get_or, drop, is_space, leb, ◌==◌, if◌then◌else◌,
}
use dmanix.Base.Int.{ℤ}
use dmanix.Regex.{Regex, one, group, star, start, end}
use dmanix.Regex.Chars.{◌⨾◌, ◌⊕◌, chr, lit, dot, space, word_char, plus}
use dmanix.Regex.Search.{Found, match, search_in, matches, occurs, group_text}
use dmanix.Lint.{Action, report}
use dmanix.Lines.{CleansedLines}
use dmanix.Functions.{FunctionState, begin_function, count_line, end_function, check_function}

-- (\w(\w|::|\*|\&|\s)*)\(
abbrev re_declaration : Regex
re_declaration =
    group 1 (word_char ⨾ star (group 2 (word_char ⊕ lit "::" ⊕ chr b'*' ⊕ chr b'&' ⊕ space)))
    ⨾ chr b'('

-- [A-Z_]+$
abbrev re_macro : Regex
re_macro = plus (one (λ c. c == 95 || leb b'A' c && leb c b'Z')) ⨾ end

-- (;|})
abbrev re_finished : Regex
re_finished = group 1 (chr b';' ⊕ chr b'}')

-- ((\w|:)*)\(
abbrev re_called : Regex
re_called = group 1 (star (group 2 (word_char ⊕ chr b':'))) ⨾ chr b'('

-- (\(.*\))
abbrev re_parameters : Regex
re_parameters = group 1 (chr b'(' ⨾ star dot ⨾ chr b')')

-- ^\}\s*$ and ^\s*$
abbrev pub re_function_end : Regex
re_function_end = start ⨾ chr b'}' ⨾ star space ⨾ end

abbrev pub re_blank : Regex
re_blank = start ⨾ star space ⨾ end

-- s.split()[-1] of a text that is not blank: `word` is the last word so far, and `fresh` whether white
-- space stands behind it.
unfoldable pub last_word_from : Text → Bool → Text → Text
unfolding is_space
last_word_from word fresh [] = word
last_word_from word fresh (c ∷ s) =
    last_word_from (if is_space c then word else if fresh then c ∷ [] else word ++ c ∷ [])
      (is_space c) s

unfoldable pub last_word : Text → Text
unfolding last_word_from
last_word s = last_word_from [] true s

abbrev is_function_name : Text → Bool
is_function_name function_name =
    text_eq function_name (codes "TEST")
    || text_eq function_name (codes "TEST_F")
    || not (matches re_macro function_name)

abbrev starts_in : Option Found → Bool
starts_in none = false
starts_in (some m) = is_function_name (last_word (group_text m 1))

-- match_result and the tests on the name that it gives: does a function start on the line?
unfoldable pub starting_func : Text → Bool
unfolding match last_word group_text text_eq
starting_func line = starts_in (match re_declaration line)

abbrev group_or_nil : Option Found → Text
group_or_nil none = []
group_or_nil (some m) = group_text m 1

-- The name under which the function is counted.
unfoldable pub counted_name : Text → Text → Text
unfolding search_in group_text matches
counted_name line joined_line =
    let function = group_or_nil (search_in re_called line) in
    if matches (lit "TEST") function
    then function ++ group_or_nil (search_in re_parameters joined_line)
    else function ++ codes "()"

-- The search for the start of the body: the state, and whether `body_found`.
unfoldable pub find_body : Text → Text → List Text → FunctionState → FunctionState × Bool
unfolding occurs counted_name begin_function lstrip
find_body line joined_line [] s = (s, false)
find_body line joined_line (start_line ∷ rest) s =
    let joined = joined_line ++ b' ' ∷ lstrip start_line in
    let later = find_body line joined rest s in
    if occurs re_finished start_line
    then (s, true)
    else if occurs (chr b'{') start_line
    then (begin_function (counted_name line joined) s, true)
    else later

-- What the check yields; `none` is an exception.
abbrev pub LengthOutcome : Type 0
LengthOutcome = Option (List Action × FunctionState)

abbrev pub no_body : Text → ℕ → FunctionState × Bool → LengthOutcome
no_body filename linenum (s, true) = some ([], s)
no_body filename linenum (s, false) = some (
  report filename linenum (codes "readability/fn_size") 5
        (codes "Lint failed to find start of function body.")
      ∷ [],
  s,
)

abbrev pub with_state : FunctionState → Option (List Action) → LengthOutcome
with_state s none = none
with_state s (some actions) = some (actions, s)

-- CheckForFunctionLengths(filename, clean_lines, linenum, function_state, error), where `linenum` is the
-- number of a line of the file and the verbosity level is the module's.
unfoldable pub check_for_function_lengths :
    Text → CleansedLines → ℕ → ℤ → FunctionState → LengthOutcome
unfolding starting_func find_body matches check_function end_function count_line
check_for_function_lengths filename clean linenum verbose_level s =
    let line = get_or clean.lines linenum [] in
    if starting_func line
    then no_body filename linenum (find_body line [] (drop linenum clean.lines) s)
    else if matches re_function_end line
    then with_state (end_function s) (check_function filename linenum verbose_level s)
    else if not (matches re_blank line)
    then some ([], count_line s)
    else some ([], s)
