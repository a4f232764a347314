-- ===== src/Functions/Counting.antt =====
-- What is counted between the start and the end of a function.
use dmanix.Base.{
  ℕ, zero, suc, ◌+◌, ◌≡◌, true, false, none, some, List, [], ◌++◌, Text, get_or, arith,
  if◌then◌else◌,
}
use dmanix.Base.Int.{ℤ}
use dmanix.Regex.Search.{matches}
use dmanix.Lint.{Action}
use dmanix.Lines.{CleansedLines}
use dmanix.Functions.{FunctionState, count_line}
use dmanix.Functions.Lines.{
  re_function_end, re_blank, LengthOutcome, starting_func, check_for_function_lengths,
}

abbrev pub before_rest : List Action → LengthOutcome → LengthOutcome
before_rest first none = none
before_rest first (some (rest, t)) = some (first ++ rest, t)

abbrev pub and_next : LengthOutcome → (FunctionState → LengthOutcome) → LengthOutcome
and_next none next = none
and_next (some (first, s)) next = before_rest first (next s)

-- The check on `n` lines from line `i` on.
pub check_lines : ℕ → ℕ → Text → CleansedLines → ℤ → FunctionState → LengthOutcome
check_lines zero i filename clean level s = some ([], s)
check_lines (suc n) i filename clean level s =
    and_next (check_for_function_lengths filename clean i level s)
      (check_lines n (i + 1) filename clean level)

abbrev pub line_at : CleansedLines → ℕ → Text
line_at clean i = get_or clean.lines i []

-- Neither the start nor the end of a function stands on the line.
abbrev pub IsBody : CleansedLines → ℕ → Type 0
IsBody clean i =
    (starting_func (line_at clean i) ≡ false) × (matches re_function_end (line_at clean i) ≡ false)

abbrev pub AllBody : ℕ → ℕ → CleansedLines → Type 0
AllBody zero i clean = Unit
AllBody (suc n) i clean = IsBody clean i × AllBody n (i + 1) clean

-- How many of the lines are not blank.
abbrev pub solid : ℕ → ℕ → CleansedLines → ℕ
solid zero i clean = 0
solid (suc n) i clean =
    (if matches re_blank (line_at clean i) then 0 else 1) + solid n (i + 1) clean

body_line :
    (filename : Text) (clean : CleansedLines) (i : ℕ) (level : ℤ) (s : FunctionState)
    → IsBody clean i
    → s.in_a_function ≡ true
    → check_for_function_lengths filename clean i level s
      ≡ some (
        [],
        record s {
          lines_in_function =
              s.lines_in_function + (if matches re_blank (line_at clean i) then 0 else 1);
        },
      )
body_line filename clean i level s h inside =
    unfold check_for_function_lengths count_line in rw (h.0, h.1) (ground arith)

-- Inside a function, over lines on which no function starts or ends, nothing is reported, and the count
-- grows by the number of lines that are not blank.
pub check_lines-solid :
    (n i : ℕ) (filename : Text) (clean : CleansedLines) (level : ℤ) (s : FunctionState)
    → AllBody n i clean
    → s.in_a_function ≡ true
    → check_lines n i filename clean level s
      ≡ some ([], record s { lines_in_function = s.lines_in_function + solid n i clean })
unfolding check_lines
check_lines-solid zero i filename clean level s h inside = ground arith
check_lines-solid (suc n) i filename clean level s h inside =
    rw (body_line filename clean i level s h.0 inside) (
      rw (check_lines-solid n (i + 1) filename clean level (counted i s) h.1 inside) (ground arith))
  where
    counted : ℕ → FunctionState → FunctionState
    counted i s = record s {
      lines_in_function =
          s.lines_in_function + (if matches re_blank (line_at clean i) then 0 else 1);
    }
