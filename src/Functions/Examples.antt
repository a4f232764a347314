-- ===== src/Functions/Examples.antt =====
-- The theorems on long functions at inputs.
use dmanix.Base.{◌+◌, ◌/◌, ◌≤◌, ◌≡◌, ◌↔◌, none, some, refl, true, [], ◌∷◌, codes, arith}
use dmanix.Base.Int.{pos, negsuc}
use dmanix.Regex.{results}
use dmanix.Regex.Search.{matches}
use dmanix.Lint.{report}
use dmanix.Lines.{CleansedLines}
use dmanix.Functions.{
  FunctionState, base_trigger, trigger, error_level, size_message, check_function,
}
use dmanix.Functions.Level.{check_function-level, Raises, check_function-iff-Raises}
use dmanix.Functions.Lines.{starting_func}
use dmanix.Functions.Counting.{check_lines, solid, check_lines-solid}

abbrev long : FunctionState
long = record { in_a_function = true; lines_in_function = 600; current_function = codes "Run()" }

check_function-level_example :
    (check_function (codes "a.cc") 700 (pos 1) long
      ≡ some (
          report
            (codes "a.cc")
            700
            (codes "readability/fn_size")
            (error_level long)
            (size_message (pos 1) long)
          ∷ []))
    × (1 ≤ error_level long)
    × (error_level long ≤ 5)
    × (1 ≤ 600 / base_trigger long)
check_function-level_example =
    check_function-level (codes "a.cc") 700 1 long (omega arith)
      (unfold trigger base_trigger matches results in omega arith)

-- A test function of 300 lines at level -1.
abbrev test_function : FunctionState
test_function = record {
  in_a_function = true;
  lines_in_function = 300;
  current_function = codes "TEST(a, b)";
}

check_function-iff-Raises_example :
    (check_function (codes "a.cc") 310 (negsuc 0) test_function ≡ none)
    ↔ Raises (negsuc 0) test_function
check_function-iff-Raises_example =
    check_function-iff-Raises (codes "a.cc") 310 (negsuc 0) test_function

test_raises : check_function (codes "a.cc") 310 (negsuc 0) test_function ≡ none
unfolding check_function base_trigger matches
test_raises = refl

abbrev body : CleansedLines
body = record {
  elided = [];
  lines = codes "  a = 1;" ∷ codes "" ∷ codes "  b = 2;" ∷ [];
  raw_lines = [];
  num_lines = 3;
}

check_lines-solid_example :
    check_lines 3 0 (codes "a.cc") body (pos 1) long
    ≡ some ([], record long { lines_in_function = 600 + solid 3 0 body })
check_lines-solid_example =
    check_lines-solid 3 0 (codes "a.cc") body (pos 1) long
      (unfold starting_func matches results in ((refl, refl), ((refl, refl), ((refl, refl), tt))))
      refl
