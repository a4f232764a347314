-- ===== src/Language/Arrays.antt =====
-- scripts/cpplint.py: what `CheckLanguage` says of arrays of variable length.
use dmanix.Base.{
  ℕ, zero, suc, ◌-◌, Bool, true, false, not, ◌&&◌, ◌||◌, Option, none, some, List, [], ◌∷◌, ◌++◌,
  Text, codes, text_eq, length, find, is_some, is_nil_text, starts_with, cons_part, if◌then◌else◌,
}
use dmanix.Paths.{lstrip_char, rstrip_char}
use dmanix.Regex.{Regex, group, star, between}
use dmanix.Regex.Chars.{◌⨾◌, ◌⊕◌, chr, lit, in_set, dot, space, word_char, plus, opt, digit}
use dmanix.Regex.Search.{Found, match, match_at, matches, occurs, group_text}
use dmanix.Lint.{Action}
use dmanix.Lint.Report.{error_if}

-- re.split(pattern, s), for a pattern without groups that never matches the empty text. `skip` counts the characters
-- of the last match still to pass.
unfoldable pub split_at_matches : Regex → ℕ → Text → Text → List Text
unfolding match_at
split_at_matches r skip before [] = [] ∷ []
split_at_matches r (suc k) before (x ∷ s) = split_at_matches r k (x ∷ before) s
split_at_matches r zero before (x ∷ s) =
    let miss = cons_part x (split_at_matches r 0 (x ∷ before) s) in
    elim (match_at r (record { before = before; after = x ∷ s; groups = [] })) [
      | none ↦ miss
      | some m ↦ [] ∷ split_at_matches r (length (between m.from m.to) - 1) (x ∷ before) s
    ]

-- \s|\+|\-|\*|\/|<<|>>]
abbrev pub re_delimiters : Regex
re_delimiters = space ⊕ chr b'+' ⊕ chr b'-' ⊕ chr b'*' ⊕ chr b'/' ⊕ lit "<<" ⊕ lit ">>]"

-- sizeof\(.+\) and arraysize\(\w+\)
unfoldable pub is_size_call : Text → Bool
unfolding occurs
is_size_call tok =
    occurs (lit "sizeof(" ⨾ plus dot ⨾ chr b')') tok
    || occurs (lit "arraysize(" ⨾ plus word_char ⨾ chr b')') tok

-- [A-Z0-9] and [A-Z]
abbrev pub upper_case : Regex
upper_case = in_set "ABCDEFGHIJKLMNOPQRSTUVWXYZ"

abbrev pub scoped : Regex → Regex
scoped r = opt (group 1 (plus dot ⨾ lit "::")) ⨾ r

-- k[A-Z0-9]\w*
abbrev pub re_constant : Regex
re_constant = chr b'k' ⨾ (upper_case ⊕ digit) ⨾ star word_char

-- The empty text, \d+, 0[xX][0-9a-fA-F]+, k[A-Z0-9]\w*, (.+::)?k[A-Z0-9]\w* and (.+::)?[A-Z][A-Z0-9_]*
unfoldable pub is_constant : Text → Bool
unfolding matches
is_constant tok =
    is_nil_text tok
    || matches (plus digit) tok
    || matches (chr b'0' ⨾ in_set "xX" ⨾ plus (in_set "0123456789abcdefABCDEF")) tok
    || matches re_constant tok
    || matches (scoped re_constant) tok
    || matches (scoped (upper_case ⨾ star (upper_case ⊕ digit ⊕ chr b'_'))) tok

-- The loop over the tokens: `is_const` where it ends.
unfoldable pub all_const : Bool → List Text → Bool
unfolding is_size_call is_constant lstrip_char rstrip_char starts_with
all_const skip_next [] = true
all_const true (tok ∷ tokens) = all_const false tokens
all_const false (tok ∷ tokens) =
    let rest = all_const false tokens in
    let skipped = all_const true tokens in
    let bare = rstrip_char b')' (lstrip_char b'(' tok) in
    if is_size_call tok
    then rest
    else if is_constant bare
    then rest
    else if starts_with bare (codes "sizeof")
    then skipped
    else false

-- \s*(.+::)?(\w+) [a-z]\w*\[(.+)];
abbrev re_array : Regex
re_array =
    star space
    ⨾ opt (group 1 (plus dot ⨾ lit "::"))
    ⨾ group 2 (plus word_char)
    ⨾ chr 32
    ⨾ in_set "abcdefghijklmnopqrstuvwxyz"
    ⨾ star word_char
    ⨾ chr b'['
    ⨾ group 3 (plus dot)
    ⨾ lit "];"

-- A declaration of an array, whose size has a token that is no compile-time constant.
unfoldable pub has_variable_length : Option Found → Bool
unfolding group_text text_eq find split_at_matches all_const
has_variable_length none = false
has_variable_length (some m) =
    not (text_eq (group_text m 2) (codes "return"))
    && not (text_eq (group_text m 2) (codes "delete"))
    && not (is_some (find (group_text m 3) (codes "]")))
    && not (all_const false (split_at_matches re_delimiters 0 [] (group_text m 3)))

unfoldable pub check_arrays : Text → ℕ → Text → List Action
unfolding error_if match has_variable_length
check_arrays filename linenum line =
    error_if (has_variable_length (match re_array line)) filename linenum "runtime/arrays" 1 (
      codes "Do not use variable-length arrays.  Use an appropriately named "
      ++ codes "('k' followed by CamelCase) compile-time constant for the size.")
