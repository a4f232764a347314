-- ===== src/Functions.antt =====
-- scripts/cpplint.py: `_FunctionState` and `CheckForFunctionLengths`.
pub mod Proper
pub mod Level
pub mod Lines
pub mod Counting
mod Examples
use dmanix.Base.{
  ℕ, zero, suc, ◌+◌, ◌*◌, ◌/◌, ◌^◌, Bool, true, false, List, [], ◌∷◌, ◌++◌, Text, codes, decimal,
  ltb, leb, if◌then◌else◌, Option, none, some, ◌==◌,
}
use dmanix.Base.Int.{ℤ, pos, negsuc}
use dmanix.Regex.{Regex}
use dmanix.Regex.Chars.{◌⨾◌, ◌⊕◌, chr, lit}
use dmanix.Regex.Search.{matches}
use dmanix.Lint.{Action, report}

pub record FunctionState : Type 0 where
  pub in_a_function : Bool
  pub lines_in_function : ℕ
  pub current_function : Text

abbrev pub new_function_state : FunctionState
new_function_state = record { in_a_function = false; lines_in_function = 0; current_function = [] }

abbrev pub normal_trigger : ℕ
normal_trigger = 250

abbrev pub test_trigger : ℕ
test_trigger = 400

unfoldable pub begin_function : Text → FunctionState → FunctionState
begin_function function_name s = record {
  in_a_function = true;
  lines_in_function = 0;
  current_function = function_name;
}

unfoldable pub count_line : FunctionState → FunctionState
count_line s =
    if s.in_a_function then record s { lines_in_function = s.lines_in_function + 1 } else s

unfoldable pub end_function : FunctionState → FunctionState
end_function s = record s { in_a_function = false }

-- T(EST|est)
abbrev re_test_function : Regex
re_test_function = chr b'T' ⨾ (lit "EST" ⊕ lit "est")

unfoldable pub base_trigger : FunctionState → ℕ
unfolding matches
base_trigger s =
    if matches re_test_function s.current_function then test_trigger else normal_trigger

-- base_trigger * 2 ** level. For a negative level the program has a float; here is its whole part, which the
-- comparison with a whole number and `%d` do not tell from it.
unfoldable pub trigger : ℤ → FunctionState → ℕ
trigger (pos n) s = base_trigger s * 2 ^ n
trigger (negsuc n) s = base_trigger s / 2 ^ suc n

-- int(math.log(n, 2)) for 1 ≤ n, on fuel: how often n can be halved. The source caps the value at 5, and
-- up to 2 ^ 6 the floating-point logarithm of a power of two is exact.
unfoldable pub log2_from : ℕ → ℕ → ℕ
log2_from zero n = 0
log2_from (suc fuel) n = let rest = suc (log2_from fuel (n / 2)) in if ltb n 2 then 0 else rest

unfoldable pub log2 : ℕ → ℕ
unfolding log2_from
log2 n = log2_from n n

abbrev pub cap_level : ℕ → ℕ
cap_level n = if ltb 5 n then 5 else n

unfoldable pub error_level : FunctionState → ℕ
unfolding log2
error_level s = cap_level (log2 (s.lines_in_function / base_trigger s))

unfoldable pub size_message : ℤ → FunctionState → Text
size_message verbose_level s =
    codes "Small and focused functions are preferred: "
    ++ s.current_function
    ++ codes " has "
    ++ decimal s.lines_in_function
    ++ codes " non-comment lines (error triggered by exceeding "
    ++ decimal (trigger verbose_level s)
    ++ codes " lines)."

-- Check(error, filename, linenum); `none` is the ValueError of math.log(0, 2).
unfoldable pub check_function : Text → ℕ → ℤ → FunctionState → Option (List Action)
unfolding trigger error_level
check_function filename linenum verbose_level s =
    if ltb (trigger verbose_level s) s.lines_in_function
    then (if s.lines_in_function / base_trigger s == 0
        then none
        else some (
            report filename linenum (codes "readability/fn_size") (error_level s)
              (size_message verbose_level s)
            ∷ []))
    else some []
