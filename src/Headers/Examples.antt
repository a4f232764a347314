-- ===== src/Headers/Examples.antt =====
-- The theorems on #include lines at inputs, and tests.
use dmanix.Base.{
  ◌≡◌, refl, true, false, Option, none, some, List, [], ◌∷◌, ◌++◌, Text, codes, text_eq, ends_with,
  if◌then◌else◌,
}
use dmanix.Regex.{results}
use dmanix.Regex.Search.{Found, search_in, group_text}
use dmanix.Headers.{
  HeaderType, c_sys_header, cpp_sys_header, likely_my_header, possible_my_header, other_header,
  line, IncludeState, new_include_state,
}
use dmanix.Headers.Names.{source_module, header_module, files_belong_to_same_module}
use dmanix.Headers.Modules.{files_belong-prefix}
use dmanix.Headers.Family.{internal_folder, public_folder, unittest, files_belong-names}
use dmanix.Headers.Classify.{classify_include}
use dmanix.Headers.Line.{re_include, place_of, check_include_line}
use dmanix.Headers.Once.{first_place, check_include_line-place_of}

abbrev good_order : List HeaderType
good_order = likely_my_header ∷ c_sys_header ∷ cpp_sys_header ∷ other_header ∷ []

abbrev late : IncludeState
late = record { included = []; section = 4; last_header = codes "b.h" }

files_belong-names_example :
    files_belong_to_same_module (codes "base/internal/x_unittest.cc") (codes "base/public/x-inl.h")
    ≡ (true, [])
files_belong-names_example =
    files_belong-names (codes "base") (codes "x") internal_folder public_folder unittest true
      (refl, (refl, (refl, (refl, tt)))) (refl, tt) (unfold ends_with in (refl, refl, refl))
      (unfold ends_with in (refl, refl, refl))

files_belong-prefix_example :
    codes "/a/base/x"
    ≡ (files_belong_to_same_module (codes "/a/base/x_test.cc") (codes "base/x-inl.h")).1
      ++ codes "base/x"
files_belong-prefix_example =
    files_belong-prefix (codes "/a/base/x_test.cc") (codes "base/x-inl.h") (codes "/a/base/x") b'b'
      (codes "ase/x") (unfold files_belong_to_same_module in refl) (unfold source_module in refl)
      (unfold header_module in refl)

classified : classify_include (codes "foo/foo.cc") (codes "foo/foo.h") false ≡ likely_my_header
unfolding classify_include results
classified = refl

classified_possible :
    classify_include (codes "foo/foo_unknown_extension.cc") (codes "bar/foo_other_ext.h") false
    ≡ possible_my_header
unfolding classify_include results
classified_possible = refl

classified_system : classify_include (codes "foo/foo.cc") (codes "stdio.h") true ≡ c_sys_header
unfolding classify_include
classified_system = refl

abbrev source : Text
source = codes "#include <map>"

abbrev the_match : Option Found → Found
the_match none = record {
  from = record { before = []; after = []; groups = [] };
  to = record { before = []; after = []; groups = [] };
}
the_match (some m) = m

check_include_line-place_of_example :
    place_of
      (codes "map")
      (check_include_line
        (codes "a.cc")
        (codes "a.cc")
        (codes "a")
        source
        3
        new_include_state).1.included
    ≡ first_place (place_of (codes "map") []) (
        if text_eq (group_text (the_match (search_in re_include source)) 2) (codes "map")
        then some (line 3)
        else none)
check_include_line-place_of_example =
    check_include_line-place_of (codes "a.cc") (codes "a.cc") (codes "a") source 3 new_include_state
      (the_match (search_in re_include source)) (codes "map") (unfold search_in results in refl)

placed : group_text (the_match (search_in re_include source)) 2 ≡ codes "map"
unfolding search_in results group_text
placed = refl
