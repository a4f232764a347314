-- ===== src/Style/Examples.antt =====
-- Tests of `CheckStyle` without the checks that it calls.
use dmanix.Base.{◌≡◌, refl, List, [], ◌∷◌, ◌++◌, Text, leb, ◌==◌, codes}
use dmanix.Lint.{Action}
use dmanix.Lint.Report.{messages}
use dmanix.Lines.{cleansed_lines}
use dmanix.Style.{check_line_style}
use dmanix.Style.Width.{UnicodeData, get_line_width}

-- The characters from U+4E00 on are wide, U+0301 combines.
abbrev some_data : UnicodeData
some_data = record {
  normalize_nfc = λ t. t;
  is_wide = λ c. leb 19968 c;
  is_combining = λ c. c == 769;
}

abbrev style_of : Text → List Action
style_of line =
    check_line_style some_data (codes "a.h") (cleansed_lines (line ∷ [])) 0 (codes "h")
      (codes "A_H_")

abbrev long_text : Text
long_text =
    codes "aaaaaaaaaaaaaaaaaaaaaaaaaaaaaaaaaaaaaaaaaaaaaaaaaaaaaaaaaaaaaaaaaaaaaaaaaaaaaaaaa"

widths : get_line_width some_data (97 ∷ 769 ∷ 19968 ∷ []) ≡ 3
unfolding get_line_width
widths = refl

weird_indent :
    messages (style_of (codes " a = b;"))
    ≡ codes "Weird number of spaces at line-start.  Are you using a 2-space indent?" ∷ []
unfolding check_line_style cleansed_lines
weird_indent = refl

trailing_space :
    messages (style_of (codes "a = b; "))
    ≡ codes "Line ends in whitespace.  Consider deleting these extra spaces." ∷ []
unfolding check_line_style cleansed_lines
trailing_space = refl

two_commands :
    messages (style_of (codes "a = b; c = d;"))
    ≡ codes "More than one command on the same line" ∷ []
unfolding check_line_style cleansed_lines
two_commands = refl

one_for : messages (style_of (codes "for (a; b; c) d;")) ≡ []
unfolding check_line_style cleansed_lines
one_for = refl

long_line : messages (style_of long_text) ≡ codes "Lines should be <= 80 characters long" ∷ []
unfolding check_line_style cleansed_lines
long_line = refl

long_guard : messages (style_of (codes "#ifndef A_H_" ++ long_text)) ≡ []
unfolding check_line_style cleansed_lines
long_guard = refl
