-- ===== src/Language/References.antt =====
-- scripts/cpplint.py: what `CheckLanguage` says of references, strings and members initialised with themselves.
use dmanix.Base.{
  ℕ, ◌+◌, Bool, false, not, ◌&&◌, ◌||◌, Option, none, some, List, [], ◌∷◌, ◌++◌, Text, codes, any,
  text_eq, length, ltb, ◌==◌,
}
use dmanix.Paths.{span_without}
use dmanix.Regex.{Regex, Cursor, one, empty, group, star, end, boundary, is_word, results}
use dmanix.Regex.Chars.{
  ◌⨾◌, ◌⊕◌, chr, lit, one_of, in_set, not_in_set, dot, space, word_char, plus, opt,
}
use dmanix.Regex.Search.{
  Found, match, matches, occurs, find_all, group_text, lookup_group, text_or_nil,
}
use dmanix.Lint.{Action}
use dmanix.Lint.Report.{error_if}

-- [\w:]
abbrev name_char : Regex
name_char = one (λ d. is_word d || d == b':')

-- (?:[\w:]|<[^()]*>)+
abbrev re_type_name : Regex
re_type_name = plus (name_char ⊕ chr b'<' ⨾ star (not_in_set "()") ⨾ chr b'>')

-- \([^()]*\b
abbrev in_parameters : Regex
in_parameters = chr b'(' ⨾ star (not_in_set "()") ⨾ boundary

-- (\s?&|&\s?)\w+
abbrev ampersand : Regex
ampersand = group 1 (opt space ⨾ chr b'&' ⊕ chr b'&' ⨾ opt space) ⨾ plus word_char

-- The three patterns for the references of a prototype: any, `const` in front, `const` behind.
abbrev re_reference : Regex
re_reference = in_parameters ⨾ re_type_name ⨾ ampersand

abbrev re_const_reference : Regex
re_const_reference =
    in_parameters
    ⨾ lit "const"
    ⨾ plus space
    ⨾ opt (lit "typename" ⨾ plus space)
    ⨾ opt (lit "struct" ⨾ plus space)
    ⨾ re_type_name
    ⨾ ampersand

abbrev re_reference_const : Regex
re_reference_const = in_parameters ⨾ re_type_name ⨾ plus space ⨾ lit "const" ⨾ ampersand

-- (for|swap|Swap|operator[<>][<>])\s*\(\s*(?:(?:typename\s*)?[\w:]|<.*>)+\s*&
abbrev re_standard_place : Regex
re_standard_place =
    group 1 (one_of "for" ("swap" ∷ "Swap" ∷ []) ⊕ lit "operator" ⨾ in_set "<>" ⨾ in_set "<>")
    ⨾ star space
    ⨾ chr b'('
    ⨾ star space
    ⨾ plus (opt (lit "typename" ⨾ star space) ⨾ name_char ⊕ chr b'<' ⨾ star dot ⨾ chr b'>')
    ⨾ star space
    ⨾ chr b'&'

-- More references than const references, outside the standard places.
unfoldable pub has_non_const_reference : Text → Bool
unfolding find_all occurs
has_non_const_reference fnline =
    ltb (length (find_all re_const_reference fnline) + length (find_all re_reference_const fnline))
      (length (find_all re_reference fnline))
    && not (occurs re_standard_place fnline)

unfoldable pub check_references : Text → ℕ → Text → List Action
unfolding error_if span_without has_non_const_reference
check_references filename linenum line =
    error_if (has_non_const_reference (span_without b'{' line).0) filename linenum
      "runtime/references" 2
      (codes "Is this a non-const reference? " ++ codes "If so, make const or use a pointer.")

-- ((?:|static +)(?:|const +))string +([a-zA-Z0-9_:]+)\b(.*)
abbrev pub re_global_string : Regex
re_global_string =
    group 1 ((empty ⊕ lit "static" ⨾ plus (chr 32)) ⨾ (empty ⊕ lit "const" ⨾ plus (chr 32)))
    ⨾ lit "string"
    ⨾ plus (chr 32)
    ⨾ group 2 (plus name_char)
    ⨾ boundary
    ⨾ group 3 (star dot)

-- \s*(<.*>)?(::[a-zA-Z0-9_]+)?\s*\(([^"]|$)
abbrev re_is_function : Regex
re_is_function =
    star space
    ⨾ opt (group 1 (chr b'<' ⨾ star dot ⨾ chr b'>'))
    ⨾ opt (group 2 (lit "::" ⨾ plus word_char))
    ⨾ star space
    ⨾ chr b'('
    ⨾ group 3 (not_in_set "\"" ⊕ end)

abbrev pub string_actions : Text → ℕ → Option Found → List Action
string_actions filename linenum none = []
string_actions filename linenum (some m) =
    error_if (not (matches re_is_function (group_text m 3))) filename linenum "runtime/string" 4 (
      codes "For a static/global string constant, use a C style string instead: "
      ++ codes "\""
      ++ group_text m 1
      ++ codes "char "
      ++ group_text m 2
      ++ codes "[]\".")

unfoldable pub check_global_string : Text → ℕ → Text → List Action
unfolding error_if match matches group_text
check_global_string filename linenum line =
    string_actions filename linenum (match re_global_string line)

-- \b([A-Za-z0-9_]*_)\(\1\), as the ways to match the pattern with a second group in place of \1 ...
abbrev re_member_init : Regex
re_member_init =
    let member = star word_char ⨾ chr b'_' in
    boundary ⨾ group 1 member ⨾ chr b'(' ⨾ group 2 member ⨾ chr b')'

-- ... in which the two groups are the same text.
abbrev same_groups : Cursor → Bool
same_groups c =
    text_eq (text_or_nil (lookup_group 1 c.groups)) (text_or_nil (lookup_group 2 c.groups))

unfoldable pub initializes_itself_from : Text → Text → Bool
unfolding any results text_eq
initializes_itself_from before [] = false
initializes_itself_from before (x ∷ s) =
    any same_groups
      (results re_member_init (record { before = before; after = x ∷ s; groups = [] }))
    || initializes_itself_from (x ∷ before) s

unfoldable pub check_member_init : Text → ℕ → Text → List Action
unfolding error_if initializes_itself_from
check_member_init filename linenum line =
    error_if (initializes_itself_from [] line) filename linenum "runtime/init" 4
      (codes "You seem to be initializing a member variable with itself.")
