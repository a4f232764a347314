-- ===== src/Needs/Examples.antt =====
-- The theorem on needed headers at an input, and tests.
use dmanix.Base.{
  ◌≡◌, ◌↔◌, ◌⊎◌, refl, true, not, ◌&&◌, Option, none, some, List, [], ◌∷◌, All, Text, codes,
  ends_with, text_eq, if◌then◌else◌,
}
use dmanix.Lint.{report}
use dmanix.Lines.{CleansedLines}
use dmanix.Needs.{line_uses}
use dmanix.Needs.Check.{Included, check_for_include_what_you_use}
use dmanix.Headers.{file_line}
use dmanix.Needs.Silent.{Includes, AllUses, known, check_for_include_what_you_use_iff}

-- A file system with the one file a/b.h.
abbrev one_file : Text → Option (List Text)
one_file name = if text_eq name (codes "/r/a/b.h") then some (codes "#include <map>" ∷ []) else none

abbrev included : Included
included = (codes "a/b.h", file_line (codes "b.cc") 1) ∷ []

abbrev two_lines : CleansedLines
two_lines = record {
  num_lines = 2;
  raw_lines = [];
  lines = [];
  elided = codes "std::map<int, int> m;" ∷ codes "vector<int> v; std::string s;" ∷ [];
}

check_for_include_what_you_use_iff_example :
    (check_for_include_what_you_use one_file (codes "/r/a/b.cc") (codes "a/b.cc") two_lines included
      ≡ [])
    ↔ (((ends_with (codes "a/b.cc") (codes ".cc")
            && not (known one_file (codes "/r/a/b.cc") included).1)
          ≡ true)
        ⊎ All
            (λ l. AllUses (Includes (known one_file (codes "/r/a/b.cc") included).0) (line_uses l))
            two_lines.elided)
check_for_include_what_you_use_iff_example =
    check_for_include_what_you_use_iff one_file (codes "/r/a/b.cc") (codes "a/b.cc") two_lines
      included

map_found_in_header :
    check_for_include_what_you_use one_file (codes "/r/a/b.cc") (codes "a/b.cc") two_lines included
    ≡ report
        (codes "a/b.cc")
        1
        (codes "build/include_what_you_use")
        4
        (codes "Add #include <string> for string")
      ∷ report
          (codes "a/b.cc")
          1
          (codes "build/include_what_you_use")
          4
          (codes "Add #include <vector> for vector<>")
      ∷ []
unfolding check_for_include_what_you_use
map_found_in_header = refl

header_not_found :
    check_for_include_what_you_use
      (λ name. none)
      (codes "/r/a/b.cc")
      (codes "a/b.cc")
      two_lines
      included
    ≡ []
unfolding check_for_include_what_you_use
header_not_found = refl
