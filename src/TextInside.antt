-- ===== src/TextInside.antt =====
-- scripts/cpplint.py: `_GetTextInside`. The pattern has no `^` and no `$`, which are all that re.M changes.
pub mod Balanced
mod Examples
use dmanix.Base.{
  ℕ, zero, suc, ◌+◌, ◌-◌, Bool, true, false, ◌||◌, Option, none, some, List, [], ◌∷◌, Text, take,
  is_some, map_option, ◌==◌, if◌then◌else◌,
}
use dmanix.Regex.{Regex}
use dmanix.Regex.Search.{Found, search_in}

-- matching_punctuation
abbrev pub closing_of : ℕ → Option ℕ
closing_of c =
    if c == b'('
    then some b')'
    else if c == b'{'
    then some b'}'
    else if c == b'['
    then some b']'
    else none

-- closing_punctuation
abbrev pub is_closing : ℕ → Bool
is_closing c = c == b')' || c == b'}' || c == b']'

abbrev pub push_closing : Option ℕ → List ℕ → List ℕ
push_closing none stack = stack
push_closing (some z) stack = z ∷ stack

-- The while loop: how many characters it reads until the stack is empty, `none` for the answer None.
unfoldable pub read_inside : List ℕ → Text → Option ℕ
read_inside [] s = some 0
read_inside (z ∷ stack) [] = none
read_inside (z ∷ stack) (c ∷ s) =
    let closed = map_option suc (read_inside stack s) in
    let further = map_option suc (read_inside (push_closing (closing_of c) (z ∷ stack)) s) in
    if c == z then closed else if is_closing c then none else further

-- The function returns a text, or None, or an assertion fails.
pub data TextInside : Type 0 where
  text_inside : Text → TextInside
  nothing_inside assertion_fails : TextInside

abbrev pub inside_of : Option ℕ → Text → TextInside
inside_of none s = nothing_inside
inside_of (some n) s = text_inside (take (n - 1) s)

abbrev pub inside_from : Option ℕ → Text → TextInside
inside_from none s = assertion_fails
inside_from (some z) s = inside_of (read_inside (z ∷ []) s) s

-- The character that the match ends with, which is to be an opening one.
abbrev pub opened_by : Text → Option ℕ
opened_by [] = none
opened_by (c ∷ before) = closing_of c

abbrev pub inside_match : Option Found → TextInside
inside_match none = nothing_inside
inside_match (some m) = inside_from (opened_by m.to.before) m.to.after

-- _GetTextInside(text, start_pattern)
unfoldable pub get_text_inside : Text → Regex → TextInside
unfolding search_in read_inside
get_text_inside text start_pattern = inside_match (search_in start_pattern text)
