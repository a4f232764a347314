-- ===== src/Headers/Names.antt =====
-- scripts/cpplint.py: the file names that the include checks compare.
use dmanix.Base.{
  Bool, true, false, ◌||◌, Option, none, some, List, [], ◌∷◌, Text, codes, before_suffix, ends_with,
  replace, if◌then◌else◌, map_option,
}
use dmanix.Paths.{splitext}

abbrev first_some : Option Text → Option Text → Option Text
first_some (some r) o = some r
first_some none o = o

-- The text before `-suffix` or `_suffix`.
abbrev before_marked : Text → Text → Option Text
before_marked filename suffix =
    first_some (before_suffix filename (b'-' ∷ suffix)) (before_suffix filename (b'_' ∷ suffix))

-- One round for each suffix, in the order of the source.
unfoldable pub drop_common_suffix : Text → List Text → Text
unfolding before_suffix
drop_common_suffix filename [] = (splitext filename).0
drop_common_suffix filename (suffix ∷ suffixes) =
    let rest = drop_common_suffix filename suffixes in
    elim (before_marked filename suffix) [ some r ↦ r | none ↦ rest ]

abbrev common_suffixes : List Text
common_suffixes =
    codes "test.cc"
    ∷ codes "regtest.cc"
    ∷ codes "unittest.cc"
    ∷ codes "inl.h"
    ∷ codes "impl.h"
    ∷ codes "internal.h"
    ∷ []

unfoldable pub drop_common_suffixes : Text → Text
unfolding drop_common_suffix splitext
drop_common_suffixes filename = drop_common_suffix filename common_suffixes

unfoldable pub is_test_filename : Text → Bool
unfolding ends_with
is_test_filename filename =
    ends_with filename (codes "_test.cc")
    || ends_with filename (codes "_unittest.cc")
    || ends_with filename (codes "_regtest.cc")

abbrev pub or_whole : Text → Option Text → Text
or_whole s none = s
or_whole s (some r) = r

-- s[:-len(suffix)] if s.endswith(suffix)
abbrev pub without_suffix : Text → Text → Text
without_suffix s suffix = or_whole s (before_suffix s suffix)

-- The directories `public` and `internal` do not count.
abbrev pub without_public : Text → Text
without_public s =
    replace (codes "/internal/") (codes "/") (replace (codes "/public/") (codes "/") s)

abbrev pub without_test : Text → Text
without_test s =
    if ends_with s (codes "_unittest")
    then without_suffix s (codes "_unittest")
    else without_suffix s (codes "_test")

-- The name of the module that a source file, or a header, belongs to; `none` for another extension.
unfoldable pub source_module : Text → Option Text
unfolding before_suffix replace ends_with
source_module filename_cc =
    map_option (λ s. without_public (without_test s)) (before_suffix filename_cc (codes ".cc"))

unfoldable pub header_module : Text → Option Text
unfolding before_suffix replace ends_with
header_module filename_h =
    map_option (λ s. without_public (without_suffix s (codes "-inl")))
      (before_suffix filename_h (codes ".h"))

-- filename_cc[:-len(filename_h)], which is empty for an empty `filename_h`
abbrev pub common_path : Text → Text → Text
common_path [] before = []
common_path (c ∷ h) before = before

abbrev pub ends_in_header : Text → Option Text → Bool × Text
ends_in_header h none = (false, [])
ends_in_header h (some before) = (true, common_path h before)

abbrev pub same_module : Option Text → Option Text → Bool × Text
same_module none h = (false, [])
same_module (some c) none = (false, [])
same_module (some c) (some h) = ends_in_header h (before_suffix c h)

-- FilesBelongToSameModule(filename_cc, filename_h)
unfoldable pub files_belong_to_same_module : Text → Text → Bool × Text
unfolding source_module header_module
files_belong_to_same_module filename_cc filename_h =
    same_module (source_module filename_cc) (header_module filename_h)
