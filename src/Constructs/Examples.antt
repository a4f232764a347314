-- ===== src/Constructs/Examples.antt =====
-- Tests of `CheckForNonStandardConstructs`.
use dmanix.Base.{◌≡◌, refl, true, false, List, [], ◌∷◌, Text, codes}
use dmanix.Lint.{Action}
use dmanix.Lint.Report.{messages}
use dmanix.Lines.{cleansed_lines}
use dmanix.Nesting.{class_kind, new_block, NestingState}
use dmanix.Constructs.{check_for_non_standard_constructs}

abbrev in_class : NestingState
in_class = record {
  stack =
      new_block true (
        class_kind (record {
          name = codes "ns::Foo";
          starting_linenum = 0;
          is_derived = false;
          access = codes "public";
          last_line = 9;
        }))
      ∷ [];
  pp_stack = [];
}

abbrev constructs_of : Text → List Action
constructs_of line =
    check_for_non_standard_constructs (codes "a.cc") (cleansed_lines (line ∷ [])) 0 in_class

implicit_constructor :
    messages (constructs_of (codes "  Foo(int a);"))
    ≡ codes "Single-argument constructors should be marked explicit." ∷ []
unfolding check_for_non_standard_constructs cleansed_lines
implicit_constructor = refl

copy_constructor : messages (constructs_of (codes "  Foo(const Foo& other);")) ≡ []
unfolding check_for_non_standard_constructs cleansed_lines
copy_constructor = refl

explicit_constructor : messages (constructs_of (codes "  explicit Foo(int a);")) ≡ []
unfolding check_for_non_standard_constructs cleansed_lines
explicit_constructor = refl

void_constructor : messages (constructs_of (codes "  Foo(void);")) ≡ []
unfolding check_for_non_standard_constructs cleansed_lines
void_constructor = refl

storage_class_last :
    messages (constructs_of (codes "int static x;"))
    ≡ codes "Storage class (static, extern, typedef, etc) should be first." ∷ []
unfolding check_for_non_standard_constructs cleansed_lines
storage_class_last = refl

endif_text :
    messages (constructs_of (codes "#endif FOO"))
    ≡ codes "Uncommented text after #endif is non-standard.  Use a comment." ∷ []
unfolding check_for_non_standard_constructs cleansed_lines
endif_text = refl

min_operator :
    messages (constructs_of (codes "x = a <? b;"))
    ≡ codes ">? and <? (max and min) operators are non-standard and deprecated." ∷ []
unfolding check_for_non_standard_constructs cleansed_lines
min_operator = refl

quad_format :
    messages (constructs_of (codes "printf(\"%qd\", a);"))
    ≡ codes "%q in format strings is deprecated.  Use %ll instead." ∷ []
unfolding check_for_non_standard_constructs cleansed_lines
quad_format = refl
