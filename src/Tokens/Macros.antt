-- ===== src/Tokens/Macros.antt =====
-- scripts/cpplint.py: `_CHECK_MACROS`, `_CHECK_REPLACEMENT`, `ReplaceableCheck` and `CheckCheck`.
use dmanix.Base.{
  ℕ, Bool, not, ◌&&◌, Option, none, some, List, [], ◌∷◌, ◌++◌, Text, String, codes, get_or, find,
  text_eq, is_some, map_option, if◌then◌else◌,
}
use dmanix.Regex.{Regex, group, star}
use dmanix.Regex.Chars.{
  ◌⨾◌, ◌⊕◌, chr, lit, literal, in_set, not_in_set, dot, space, digit, plus, opt, up_to,
}
use dmanix.Regex.Search.{matches, occurs}
use dmanix.Lint.{Action, report}
use dmanix.Lines.{CleansedLines}

-- The two tables of operators: for macros that are to hold, and for those that are not to.
abbrev pub replacements : List (Text × Text)
replacements =
    (codes "==", codes "EQ")
    ∷ (codes "!=", codes "NE")
    ∷ (codes ">=", codes "GE")
    ∷ (codes ">", codes "GT")
    ∷ (codes "<=", codes "LE")
    ∷ (codes "<", codes "LT")
    ∷ []

abbrev pub inv_replacements : List (Text × Text)
inv_replacements =
    (codes "==", codes "NE")
    ∷ (codes "!=", codes "EQ")
    ∷ (codes ">=", codes "LT")
    ∷ (codes ">", codes "LE")
    ∷ (codes "<=", codes "GT")
    ∷ (codes "<", codes "GE")
    ∷ []

-- A macro of _CHECK_MACROS with its entry of _CHECK_REPLACEMENT: what stands before and behind the name of the
-- operator, and the table that it is taken from.
pub record CheckMacro : Type 0 where
  pub name : Text
  pub before : Text
  pub behind : Text
  pub table : List (Text × Text)

abbrev check_macro : String → String → String → List (Text × Text) → CheckMacro
check_macro name before behind table = record {
  name = codes name;
  before = codes before;
  behind = codes behind;
  table = table;
}

abbrev pub check_macros : List CheckMacro
check_macros =
    check_macro "DCHECK" "DCHECK_" "" replacements
    ∷ check_macro "CHECK" "CHECK_" "" replacements
    ∷ check_macro "EXPECT_TRUE_M" "EXPECT_" "_M" replacements
    ∷ check_macro "EXPECT_TRUE" "EXPECT_" "" replacements
    ∷ check_macro "ASSERT_TRUE_M" "ASSERT_" "_M" replacements
    ∷ check_macro "ASSERT_TRUE" "ASSERT_" "" replacements
    ∷ check_macro "EXPECT_FALSE_M" "EXPECT_" "_M" inv_replacements
    ∷ check_macro "EXPECT_FALSE" "EXPECT_" "" inv_replacements
    ∷ check_macro "ASSERT_FALSE_M" "ASSERT_" "_M" inv_replacements
    ∷ check_macro "ASSERT_FALSE" "ASSERT_" "" inv_replacements
    ∷ []

unfoldable pub lookup_operator : Text → List (Text × Text) → Option Text
unfolding text_eq
lookup_operator operator [] = none
lookup_operator operator ((o, r) ∷ table) =
    let rest = lookup_operator operator table in if text_eq o operator then some r else rest

-- _CHECK_REPLACEMENT[macro][operator]; `none` is a KeyError
unfoldable pub check_replacement : CheckMacro → Text → Option Text
unfolding lookup_operator
check_replacement m operator =
    map_option (λ r. m.before ++ r ++ m.behind) (lookup_operator operator m.table)

-- s.find(p) >= 0
unfoldable pub contains : Text → Text → Bool
unfolding find
contains s p = is_some (find s p)

-- The loop for current_macro.
unfoldable pub first_macro : List CheckMacro → Text → Option CheckMacro
unfolding contains
first_macro [] raw_line = none
first_macro (m ∷ ms) raw_line =
    let rest = first_macro ms raw_line in if contains raw_line m.name then some m else rest

-- ([-+]?(\d+|0[xX][0-9a-fA-F]+)[lLuU]{0,3}|".*"|'.*'), with the numbers of its groups
abbrev match_constant : ℕ → ℕ → Regex
match_constant i j = group i (
    opt (in_set "-+")
      ⨾ group j (plus digit ⊕ chr b'0' ⨾ in_set "xX" ⨾ plus (in_set "0123456789abcdefABCDEF"))
      ⨾ up_to 3 (in_set "lLuU")
    ⊕ chr 34 ⨾ star dot ⨾ chr 34
    ⊕ chr 39 ⨾ star dot ⨾ chr 39)

-- \s*MACRO\((\s*CONSTANT\s*OPERATOR[^<>].*|.*[^<>]OPERATOR\s*CONSTANT\s*\))
abbrev match_this : Text → Text → Regex
match_this operator macro =
    star space
    ⨾ literal macro
    ⨾ chr b'('
    ⨾ group 1 (
        star space ⨾ match_constant 2 3 ⨾ star space ⨾ literal operator ⨾ not_in_set "<>" ⨾ star dot
        ⊕ star dot
          ⨾ not_in_set "<>"
          ⨾ literal operator
          ⨾ star space
          ⨾ match_constant 4 5
          ⨾ star space
          ⨾ chr b')')

-- ReplaceableCheck(operator, macro, line)
unfoldable pub replaceable_check : Text → Text → Text → Bool
unfolding matches occurs
replaceable_check operator macro line =
    matches (match_this operator macro) line && not (occurs (lit "NULL" ⊕ lit "&&" ⊕ lit "||") line)

abbrev pub operators : List Text
operators = codes "==" ∷ codes "!=" ∷ codes ">=" ∷ codes ">" ∷ codes "<=" ∷ codes "<" ∷ []

abbrev pub check_report : Text → ℕ → CheckMacro → Text → Option Text → List Action
check_report filename linenum m operator none = []
check_report filename linenum m operator (some replacement) =
    report filename linenum (codes "readability/check") 2 (
      codes "Consider using "
      ++ replacement
      ++ codes " instead of "
      ++ m.name
      ++ codes "(a "
      ++ operator
      ++ codes " b)")
    ∷ []

-- The loop over the operators, which stops at the first report.
unfoldable pub check_operators : Text → ℕ → Text → CheckMacro → List Text → List Action
unfolding replaceable_check check_replacement
check_operators filename linenum line m [] = []
check_operators filename linenum line m (operator ∷ rest) =
    let later = check_operators filename linenum line m rest in
    if replaceable_check operator m.name line
    then check_report filename linenum m operator (check_replacement m operator)
    else later

abbrev pub check_with : Text → CleansedLines → ℕ → Option CheckMacro → List Action
check_with filename clean linenum none = []
check_with filename clean linenum (some m) =
    check_operators filename linenum (get_or clean.elided linenum []) m operators

-- CheckCheck(filename, clean_lines, linenum, error)
unfoldable pub check_check : Text → CleansedLines → ℕ → List Action
unfolding first_macro check_operators
check_check filename clean linenum =
    check_with filename clean linenum (first_macro check_macros (get_or clean.raw_lines linenum []))
