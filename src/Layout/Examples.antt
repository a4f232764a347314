-- ===== src/Layout/Examples.antt =====
-- The theorems on braces and blank lines at inputs, and tests.
use dmanix.Base.{
  ℕ, zero, suc, ◌≡◌, ◌<◌, ◌≤◌, refl, inl, true, none, some, List, [], ◌∷◌, Text, codes, get_or,
  count_char, arith,
}
use dmanix.Lint.{Action, report}
use dmanix.Lines.{CleansedLines, cleansed_lines}
use dmanix.Regex.Search.{matches}
use dmanix.Layout.{is_blank_line, get_previous_non_blank_line, check_braces}
use dmanix.Layout.Previous.{Nearest, get_previous_non_blank_line-Nearest}
use dmanix.Layout.Joining.{check_braces_ends, check_braces-BlankBetween}
use dmanix.Layout.Loops.{check_empty_loop_body}

abbrev three_lines : List Text
three_lines = codes "int a;" ∷ [] ∷ codes "  {};" ∷ []

get_previous_non_blank_line-Nearest_example :
    Nearest three_lines 2 (get_previous_non_blank_line three_lines (some 2))
get_previous_non_blank_line-Nearest_example = get_previous_non_blank_line-Nearest three_lines 2

abbrev calm_file : CleansedLines
calm_file = record {
  num_lines = 3;
  raw_lines = three_lines;
  lines = three_lines;
  elided = three_lines;
}

check_braces_ends_example :
    (actions : List Action) × (check_braces 3 (codes "a.cc") calm_file 2 ≡ some actions)
unfolding count_char
check_braces_ends_example =
    check_braces_ends 3 (codes "a.cc") calm_file 2 (omega arith)
      (inl (0, omega arith, unfold is_blank_line in refl, refl))

-- The file of the one line `  {};`, as its lines come to the checks.
abbrev hanging_lines : List Text
hanging_lines = codes "// marker so line numbers and indices both start at 1" ∷ codes "  {};" ∷ []

abbrev hanging_file : CleansedLines
hanging_file = record {
  num_lines = 2;
  raw_lines = hanging_lines;
  lines = [] ∷ codes "  {};" ∷ [];
  elided = [] ∷ codes "  {};" ∷ [];
}

hanging_cleansed : cleansed_lines hanging_lines ≡ hanging_file
unfolding cleansed_lines
hanging_cleansed = refl

check_braces-BlankBetween_example : check_braces 1000 (codes "a.cc") hanging_file 1 ≡ none
check_braces-BlankBetween_example =
    check_braces-BlankBetween 1000 (codes "a.cc") hanging_file 1 (unfold matches in refl)
      first_blank
  where
    first_blank : (k : ℕ) → 0 ≤ k → k < 1 → is_blank_line (get_or hanging_file.elided k []) ≡ true
    first_blank zero l h = unfold is_blank_line in refl
    first_blank (suc k) l h = absurd (omega arith)

empty_loop_reported :
    check_empty_loop_body
      (codes "a.cc")
      (record { num_lines = 1; raw_lines = []; lines = []; elided = codes "while (f(x));" ∷ [] })
      0
    ≡ report
        (codes "a.cc")
        0
        (codes "whitespace/empty_loop_body")
        5
        (codes "Empty loop bodies should use {} or continue")
      ∷ []
unfolding check_empty_loop_body
empty_loop_reported = refl
