-- ===== src/Guard/Examples.antt =====
-- The theorem on header guards at an input, and tests.
use dmanix.Base.{◌≡◌, refl, ◌↔◌, List, [], ◌∷◌, Text, codes}
use dmanix.Guard.{check_for_header_guard}
use dmanix.Guard.Found.{first_argument, last_endif, Guarded, check_for_header_guard-silent}

abbrev guarded_file : List Text
guarded_file =
    codes "#ifndef A_H_"
    ∷ codes "#define  A_H_"
    ∷ codes "#endif  // B"
    ∷ codes "#endif  // A_H_"
    ∷ []

check_for_header_guard-silent_example :
    (check_for_header_guard (codes "a.h") guarded_file (codes "A_H_") ≡ [])
    ↔ Guarded
        (codes "A_H_")
        (first_argument (codes "#ifndef") guarded_file)
        (first_argument (codes "#define") guarded_file)
        (last_endif guarded_file)
check_for_header_guard-silent_example =
    check_for_header_guard-silent (codes "a.h") guarded_file (codes "A_H_")

accepted : check_for_header_guard (codes "a.h") guarded_file (codes "A_H_") ≡ []
unfolding check_for_header_guard
accepted = refl
