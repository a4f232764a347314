-- ===== src/Angles/Examples.antt =====
-- The theorems on angle brackets at inputs, and tests.
use dmanix.Base.{◌≡◌, refl, Bool, true, false, some, List, [], ◌∷◌, ◌++◌, Text, codes, mem_char}
use dmanix.Lines.{CleansedLines}
use dmanix.Angles.{find_next_matching_angle_bracket, find_previous_matching_angle_bracket}
use dmanix.Angles.Previous.{find_previous_matching_angle_bracket_ends}
use dmanix.Angles.Scan.{scan_line, scan_lines, find_next_matching_angle_bracket-scan}
use dmanix.Angles.Nested.{n_nil, n_plain, n_angle, find_next_matching_angle_bracket-Nested}

abbrev file_of : List Text → CleansedLines
file_of lines = record { num_lines = 0; raw_lines = lines; lines = lines; elided = lines }

find_next_matching_angle_bracket-scan_example :
    find_next_matching_angle_bracket (file_of ([] ∷ codes "b>" ∷ [])) 0 (codes "a(")
    ≡ some (scan_lines (scan_line (codes "<" ∷ []) (codes "a(")) (codes "b>" ∷ []))
find_next_matching_angle_bracket-scan_example =
    find_next_matching_angle_bracket-scan (file_of ([] ∷ codes "b>" ∷ [])) 0 (codes "a(")
      (refl, (refl, tt)) ((refl, (refl, tt)), tt)

find_next_matching_angle_bracket-Nested_example :
    find_next_matching_angle_bracket (file_of ([] ∷ [])) 0 (codes "<a>" ++ b';' ∷ codes "x")
    ≡ some false
unfolding mem_char
find_next_matching_angle_bracket-Nested_example =
    find_next_matching_angle_bracket-Nested (file_of ([] ∷ [])) 0 (codes "<a>") (codes "x") b';'
      (refl, (refl, (refl, (refl, (refl, tt))))) tt (n_angle (n_plain refl n_nil) n_nil) refl

previous_found :
    find_previous_matching_angle_bracket
      (file_of (codes "vector<pair<int, " ∷ [] ∷ []))
      1
      (codes "f(a)> ")
    ≡ some true
unfolding find_previous_matching_angle_bracket
previous_found = refl

previous_missing :
    find_previous_matching_angle_bracket (file_of (codes "if (a" ∷ [])) 0 (codes "; b ")
    ≡ some false
unfolding find_previous_matching_angle_bracket
previous_missing = refl

find_previous_matching_angle_bracket_ends_example :
    (b : Bool) × (find_previous_matching_angle_bracket
        (file_of (codes "map<int, " ∷ [] ∷ []))
        1
        (codes "f(a)")
      ≡ some b)
find_previous_matching_angle_bracket_ends_example =
    find_previous_matching_angle_bracket_ends (file_of (codes "map<int, " ∷ [] ∷ [])) 1
      (codes "f(a)")
