-- ===== src/Lint/Counts.antt =====
-- `IncrementErrorCount`, `ResetErrorCounts` and what they count.
use dmanix.Base.{
  ℕ, suc, ◌+◌, ◌≡◌, refl, List, [], ◌∷◌, ◌++◌, Text, codes, decimal, text_eq, split_char,
  if◌then◌else◌, arith,
}
use dmanix.Base.Int.{ℤ}
use dmanix.Lint.{Counting, OutputFormat, total, toplevel, detailed, CppLintState}

-- errors_by_category[category] += 1, from 0 where the key is new
unfoldable pub increment : Text → List (Text × ℕ) → List (Text × ℕ)
increment category [] = (category, 1) ∷ []
increment category ((k, n) ∷ counts) =
    let rest = increment category counts in
    if text_eq k category then (k, suc n) ∷ counts else (k, n) ∷ rest

abbrev first_part : List Text → Text
first_part [] = []
first_part (p ∷ ps) = p

abbrev count_under : Counting → Text → List (Text × ℕ) → List (Text × ℕ)
count_under total category counts = counts
count_under toplevel category counts = increment (first_part (split_char b'/' category)) counts
count_under detailed category counts = increment category counts

unfoldable pub increment_error_count : Text → CppLintState → CppLintState
unfolding increment
increment_error_count category s = record s {
  error_count = s.error_count + 1;
  errors_by_category = count_under s.counting category s.errors_by_category;
}

unfoldable pub reset_error_counts : CppLintState → CppLintState
reset_error_counts s = record s { error_count = 0; errors_by_category = [] }

-- SetOutputFormat, SetCountingStyle, and SetVerboseLevel with the previous level
unfoldable pub set_output_format : OutputFormat → CppLintState → CppLintState
set_output_format output_format s = record s { output_format = output_format }

unfoldable pub set_counting_style : Counting → CppLintState → CppLintState
set_counting_style counting_style s = record s { counting = counting_style }

unfoldable pub set_verbose_level : ℤ → CppLintState → ℤ × CppLintState
set_verbose_level level s = (s.verbose_level, record s { verbose_level = level })

-- PrintErrorCounts: the texts that are written, the categories in the order in which they were first counted,
-- where the program has that of a dict.
unfoldable pub category_lines : List (Text × ℕ) → List Text
unfolding decimal
category_lines [] = []
category_lines ((category, n) ∷ counts) =
    (codes "Category '" ++ category ++ codes "' errors found: " ++ decimal n ++ 10 ∷ [])
    ∷ category_lines counts

unfoldable pub print_error_counts : CppLintState → List Text
unfolding category_lines decimal
print_error_counts s =
    category_lines s.errors_by_category
    ++ (codes "Total errors found: " ++ decimal s.error_count ++ 10 ∷ []) ∷ []

-- The sum over the categories.
abbrev pub sum_counts : List (Text × ℕ) → ℕ
sum_counts [] = 0
sum_counts ((k, n) ∷ counts) = n + sum_counts counts

increment-sum :
    (category : Text) (counts : List (Text × ℕ))
    → sum_counts (increment category counts) ≡ suc (sum_counts counts)
unfolding increment
increment-sum category [] = refl
increment-sum category ((k, n) ∷ counts) = ground (arith, increment-sum category counts)

-- When errors are counted by category, the categories add up to the total.
abbrev Agree : Counting → ℕ → List (Text × ℕ) → Type 0
Agree total n counts = counts ≡ []
Agree toplevel n counts = sum_counts counts ≡ n
Agree detailed n counts = sum_counts counts ≡ n

abbrev pub CountsAgree : CppLintState → Type 0
CountsAgree s = Agree s.counting s.error_count s.errors_by_category

Agree-increment :
    (k : Counting) (category : Text) (n : ℕ) (counts : List (Text × ℕ))
    → Agree k n counts
    → Agree k (n + 1) (count_under k category counts)
Agree-increment total category n counts h = h
Agree-increment toplevel category n counts h =
    omega (arith, increment-sum (first_part (split_char b'/' category)) counts)
Agree-increment detailed category n counts h = omega (arith, increment-sum category counts)

pub increment_error_count-CountsAgree :
    (category : Text) (s : CppLintState)
    → CountsAgree s
    → CountsAgree (increment_error_count category s)
unfolding increment_error_count
increment_error_count-CountsAgree category s h =
    Agree-increment s.counting category s.error_count s.errors_by_category h

pub reset_error_counts-CountsAgree : (s : CppLintState) → CountsAgree (reset_error_counts s)
unfolding reset_error_counts
reset_error_counts-CountsAgree s = start s.counting
  where
    start : (k : Counting) → Agree k 0 []
    start total = refl
    start toplevel = refl
    start detailed = refl
