-- ===== src/Tokens/Examples.antt =====
-- The theorems on the tables at inputs, and tests of the checks.
use dmanix.Base.{◌≡◌, refl, inl, inr, [], ◌∷◌, Text, codes, length}
use dmanix.Lint.{report}
use dmanix.Lines.{CleansedLines}
use dmanix.Tokens.Macros.{CheckMacro, contains, first_macro, replacements, check_check}
use dmanix.Tokens.Longest.{first_macro-longest}
use dmanix.Tokens.Lines.{
  check_for_multiline_comments_and_strings, check_posix_threading, check_invalid_increment,
  check_comment, check_alt_tokens, check_make_pair_uses_deduction,
}

abbrev expect_true_m : CheckMacro
expect_true_m = record {
  name = codes "EXPECT_TRUE_M";
  before = codes "EXPECT_";
  behind = codes "_M";
  table = replacements;
}

first_macro-longest_example : expect_true_m ≡ expect_true_m
unfolding first_macro contains
first_macro-longest_example =
    first_macro-longest (codes "EXPECT_TRUE_M(a == 1)") expect_true_m expect_true_m refl
      (inr (inr (inl refl))) refl refl

abbrev file_of : Text → CleansedLines
file_of line = record {
  num_lines = 1;
  raw_lines = line ∷ [];
  lines = line ∷ [];
  elided = line ∷ [];
}

check_replaced :
    check_check (codes "a.cc") (file_of (codes "EXPECT_FALSE(x >= 2);")) 0
    ≡ report
        (codes "a.cc")
        0
        (codes "readability/check")
        2
        (codes "Consider using EXPECT_LT instead of EXPECT_FALSE(a >= b)")
      ∷ []
unfolding check_check
check_replaced = refl

check_kept : check_check (codes "a.cc") (file_of (codes "CHECK(x == NULL);")) 0 ≡ []
unfolding check_check
check_kept = refl

alt_token_replaced :
    check_alt_tokens (codes "a.cc") (file_of (codes "if (a and_eq b or c)")) 0
    ≡ report
        (codes "a.cc")
        0
        (codes "readability/alt_tokens")
        2
        (codes "Use operator &= instead of and_eq")
      ∷ report
          (codes "a.cc")
          0
          (codes "readability/alt_tokens")
          2
          (codes "Use operator || instead of or")
      ∷ []
unfolding check_alt_tokens
alt_token_replaced = refl

threading_reported :
    length (check_posix_threading (codes "a.cc") (file_of (codes "  x = rand(); y->rand();")) 0) ≡ 1
unfolding check_posix_threading
threading_reported = refl

increment_reported :
    length (check_invalid_increment (codes "a.cc") (file_of (codes "  *count++;")) 0) ≡ 1
unfolding check_invalid_increment
increment_reported = refl

todo_reported : length (check_comment (codes "//  TODO fix") (codes "a.cc") 0) ≡ 2
unfolding check_comment
todo_reported = refl

todo_accepted : check_comment (codes "// TODO(me): fix") (codes "a.cc") 0 ≡ []
unfolding check_comment
todo_accepted = refl

string_reported :
    length (check_for_multiline_comments_and_strings (codes "a.cc") (file_of (codes "a /* \"b")) 0)
    ≡ 2
unfolding check_for_multiline_comments_and_strings
string_reported = refl

make_pair_reported :
    length (check_make_pair_uses_deduction (codes "a.cc") (file_of (codes "make_pair<int>(1)")) 0)
    ≡ 1
unfolding check_make_pair_uses_deduction
make_pair_reported = refl
