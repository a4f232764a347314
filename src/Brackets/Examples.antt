-- ===== src/Brackets/Examples.antt =====
-- The theorems on closing brackets at inputs.
use mathlib.Core.List.{flatten}
use dmanix.Base.{◌≡◌, refl, some, List, [], ◌∷◌, Text, codes, count_char, arith}
use dmanix.Base.Int.{ℤ}
use dmanix.Brackets.{scan_end, close_later}
use dmanix.Brackets.Close.{NoneReopens, Located, offset_of, close_later-scan, close_later-reopened}

abbrev later_lines : List Text
later_lines = codes "b," ∷ codes "c);" ∷ []

abbrev reopening : Text
reopening = codes "b) + g(c,"

close_later-reopened_example :
    (scan_end (ℤ.pos 1) b'(' b')' (flatten (reopening ∷ codes "d);" ∷ [])) ≡ some 2)
    × Located 9 5
        (codes "d);" ∷ [])
        (close_later 9 4 (codes "f(a,") (ℤ.pos 1) b'(' b')' (reopening ∷ codes "d);" ∷ []))
close_later-reopened_example =
    close_later-reopened 9 4 (codes "f(a,") 0 b'(' b')' 2 reopening (codes "d);" ∷ [])
      (unfold scan_end in refl) (unfold count_char in omega arith)

none_reopens : NoneReopens 0 b'(' b')' later_lines
none_reopens =
    unfold scan_end count_char in (λ k e. ground arith, λ m q. (λ k e. omega arith, λ m' q'. tt))

close_later-scan_example :
    offset_of 4 later_lines (close_later 9 4 (codes "f(a,") (ℤ.pos 1) b'(' b')' later_lines)
    ≡ scan_end (ℤ.pos 1) b'(' b')' (flatten later_lines)
close_later-scan_example =
    close_later-scan 9 4 (codes "f(a,") 0 b'(' b')' later_lines (omega arith) none_reopens
