-- ===== src/Angles.antt =====
-- scripts/cpplint.py: `FindNextMatchingAngleBracket` and `FindPreviousMatchingAngleBracket`. A nesting
-- stack is a list with its top in front; each loop runs on fuel, for every character and every line to come.
pub mod Scan
pub mod Previous
pub mod Nested
mod Examples
use dmanix.Base.{
  ℕ, zero, suc, ◌+◌, Bool, true, false, Option, none, some, List, [], ◌∷◌, Text, String, codes,
  drop, take, reverse, length, text_eq, mem_text, map, if◌then◌else◌,
}
use dmanix.Regex.{Regex, group, star, start, end}
use dmanix.Regex.Chars.{◌⨾◌, in_set, not_in_set, dot}
use dmanix.Regex.Search.{search_in, group_text}
use dmanix.Lines.{CleansedLines}

-- ^[^<>(),;\[\]]*([<>(),;\[\]])(.*)$, in two parts
abbrev pub next_head : Regex
next_head = start ⨾ star (not_in_set "<>(),;[]") ⨾ group 1 (in_set "<>(),;[]")

abbrev pub next_rest : Regex
next_rest = group 2 (star dot) ⨾ end

-- ^(.*)([<>(),;\[\]])[^<>(),;\[\]]*$
abbrev pub previous_operator : Regex
previous_operator =
    start ⨾ group 1 (star dot) ⨾ group 2 (in_set "<>(),;[]") ⨾ star (not_in_set "<>(),;[]") ⨾ end

-- What an operator leads to: the function returns, or the loop goes on with a stack.
pub data Outcome : Type 0 where
  answer : Bool → Outcome
  go_on : List Text → Outcome

abbrev one_of_texts : Text → List String → Bool
one_of_texts operator texts = mem_text operator (map codes texts)

abbrev pop_last : List Text → Outcome
pop_last [] = answer true
pop_last (t ∷ stack) = go_on (t ∷ stack)

-- One operator, with the top of the stack apart; the stack is never empty.
unfoldable pub next_step : Text → Text → List Text → Outcome
unfolding text_eq mem_text
next_step operator top stack =
    if text_eq top (codes "<")
    then if one_of_texts operator ("<" ∷ "(" ∷ "[" ∷ [])
      then go_on (operator ∷ top ∷ stack)
      else if text_eq operator (codes ">")
      then pop_last stack
      else if text_eq operator (codes ",")
      then answer true
      else answer false
    else if one_of_texts operator ("<" ∷ "(" ∷ "[" ∷ [])
    then go_on (operator ∷ top ∷ stack)
    else if one_of_texts operator (")" ∷ "]" ∷ [])
    then go_on stack
    else go_on (top ∷ stack)

unfoldable pub previous_step : Text → Text → List Text → Outcome
unfolding text_eq mem_text
previous_step operator top stack =
    if text_eq top (codes ">")
    then if one_of_texts operator (">" ∷ ")" ∷ "]" ∷ [])
      then go_on (operator ∷ top ∷ stack)
      else if text_eq operator (codes "<")
      then pop_last stack
      else if text_eq operator (codes ",")
      then answer true
      else answer false
    else if one_of_texts operator (">" ∷ ")" ∷ "]" ∷ [])
    then go_on (operator ∷ top ∷ stack)
    else if one_of_texts operator ("(" ∷ "[" ∷ [])
    then go_on stack
    else go_on (top ∷ stack)

-- A step on the whole stack; on an empty one Python would raise an IndexError, here the answer is false.
abbrev pub step_with : (Text → Text → List Text → Outcome) → Text → List Text → Outcome
step_with f operator [] = answer false
step_with f operator (top ∷ stack) = f operator top stack

-- Return, or the next round with the stack.
abbrev pub loop_on : Outcome → (List Text → Option Bool) → Option Bool
loop_on (answer b) f = some b
loop_on (go_on stack) f = f stack

-- The loop of FindNextMatchingAngleBracket on the text `line`, with the lines still to come.
unfoldable pub find_next : ℕ → List Text → Text → List Text → Option Bool
unfolding search_in group_text next_step
find_next zero stack line lines = none
find_next (suc fuel) stack line lines = elim (search_in (next_head ⨾ next_rest) line) [
  | none ↦ elim lines [ [] ↦ some true | next ∷ others ↦ find_next fuel stack next others ]
  | some m ↦
      loop_on (step_with next_step (group_text m 1) stack)
        (λ stack'. find_next fuel stack' (group_text m 2) lines)
]

abbrev pub total_length : List Text → ℕ
total_length [] = 0
total_length (line ∷ lines) = suc (length line + total_length lines)

-- FindNextMatchingAngleBracket(clean_lines, linenum, init_suffix)
unfoldable pub find_next_matching_angle_bracket : CleansedLines → ℕ → Text → Option Bool
unfolding find_next
find_next_matching_angle_bracket clean linenum init_suffix =
    let lines = drop (linenum + 1) clean.elided in
    find_next (suc (length init_suffix + total_length lines)) (codes "<" ∷ []) init_suffix lines

-- The loop of FindPreviousMatchingAngleBracket, with the lines before, the nearest one first.
unfoldable pub find_previous : ℕ → List Text → Text → List Text → Option Bool
unfolding search_in group_text previous_step
find_previous zero stack line lines = none
find_previous (suc fuel) stack line lines = elim (search_in previous_operator line) [
  | none ↦ elim lines [ [] ↦ some false | next ∷ others ↦ find_previous fuel stack next others ]
  | some m ↦
      loop_on (step_with previous_step (group_text m 2) stack)
        (λ stack'. find_previous fuel stack' (group_text m 1) lines)
]

-- FindPreviousMatchingAngleBracket(clean_lines, linenum, init_prefix)
unfoldable pub find_previous_matching_angle_bracket : CleansedLines → ℕ → Text → Option Bool
unfolding find_previous
find_previous_matching_angle_bracket clean linenum init_prefix =
    let lines = reverse (take linenum clean.elided) in
    find_previous (suc (length init_prefix + total_length lines)) (codes ">" ∷ []) init_prefix lines
