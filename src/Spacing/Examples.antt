-- ===== src/Spacing/Examples.antt =====
-- Tests of `CheckSpacing`.
use dmanix.Base.{ℕ, ◌≡◌, refl, List, [], ◌∷◌, Text, codes}
use dmanix.Lint.{Action}
use dmanix.Lint.Report.{messages}
use dmanix.Lines.{cleansed_lines}
use dmanix.Nesting.{new_nesting_state}
use dmanix.Spacing.{check_spacing}

abbrev spacing_of : List Text → ℕ → List Action
spacing_of lines linenum =
    check_spacing (codes "a.cc") (cleansed_lines lines) linenum new_nesting_state

spaced_line : messages (spacing_of (codes "if (a == b) return c;" ∷ []) 0) ≡ []
unfolding check_spacing cleansed_lines
spaced_line = refl

near_comment :
    messages (spacing_of (codes "x = 1; // one" ∷ []) 0)
    ≡ codes "At least two spaces is best between code and comments" ∷ []
unfolding check_spacing cleansed_lines
near_comment = refl

tight_comment :
    messages (spacing_of (codes "x = 1;  //one" ∷ []) 0)
    ≡ codes "Should have a space between // and comment" ∷ []
unfolding check_spacing cleansed_lines
tight_comment = refl

tight_comparison :
    messages (spacing_of (codes "if (a==b) c;" ∷ []) 0) ≡ codes "Missing spaces around ==" ∷ []
unfolding check_spacing cleansed_lines
tight_comparison = refl

tight_shift_of_names :
    messages (spacing_of (codes "a<<b;" ∷ []) 0) ≡ codes "Missing spaces around <<" ∷ []
unfolding check_spacing cleansed_lines
tight_shift_of_names = refl

shift_of_digits : messages (spacing_of (codes "x = 10<<20;" ∷ []) 0) ≡ []
unfolding check_spacing cleansed_lines
shift_of_digits = refl

template_brackets : messages (spacing_of (codes "map<int> m;" ∷ []) 0) ≡ []
unfolding check_spacing cleansed_lines
template_brackets = refl

tight_keyword :
    messages (spacing_of (codes "  while(true) {}" ∷ []) 0)
    ≡ codes "Missing space before ( in while(" ∷ []
unfolding check_spacing cleansed_lines
tight_keyword = refl

uneven_parens :
    messages (spacing_of (codes "for ( a; b; c) {" ∷ []) 0)
    ≡ codes "Mismatching spaces inside () in for" ∷ []
unfolding check_spacing cleansed_lines
uneven_parens = refl

tight_comma : messages (spacing_of (codes "f(a,b);" ∷ []) 0) ≡ codes "Missing space after ," ∷ []
unfolding check_spacing cleansed_lines
tight_comma = refl

space_in_call :
    messages (spacing_of (codes "f( a);" ∷ []) 0)
    ≡ codes "Extra space after ( in function call" ∷ []
unfolding check_spacing cleansed_lines
space_in_call = refl

tight_brace : messages (spacing_of (codes "if (a){" ∷ []) 0) ≡ codes "Missing space before {" ∷ []
unfolding check_spacing cleansed_lines
tight_brace = refl

range_colon :
    messages (spacing_of (codes "for (auto a: b) {" ∷ []) 0)
    ≡ codes "Missing space around colon in range-based for loop" ∷ []
unfolding check_spacing cleansed_lines
range_colon = refl

lone_semicolon :
    messages (spacing_of (codes "  ;" ∷ []) 0)
    ≡ codes "Line contains only semicolon. If this should be an empty statement, use {} instead."
      ∷ []
unfolding check_spacing cleansed_lines
lone_semicolon = refl

block_start :
    messages (spacing_of (codes "void f() {" ∷ [] ∷ codes "  g();" ∷ []) 1)
    ≡ codes "Blank line at the start of a code block.  Is this needed?" ∷ []
unfolding check_spacing cleansed_lines
block_start = refl

header_end_excused :
    messages (spacing_of (codes "void f(int a," ∷ codes "    int b) {" ∷ [] ∷ []) 2) ≡ []
unfolding check_spacing cleansed_lines
header_end_excused = refl
