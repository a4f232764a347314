-- ===== src/Headers/Family.antt =====
-- The files of one module, as the documentation of `FilesBelongToSameModule` names them.
use mathlib.Core.List.{reverse-append}
use mathlib.Core.Bool.{true≢false}
use dmanix.Base.{
  ◌≡◌, refl, ap, ◌∙◌, Bool, Option-cases, inl, inr, if◌then◌else◌, true, false, none, some, [], ◌∷◌,
  ◌++◌, Text, codes, All, ◌==◌, mem_char, append-nil, starts_with, before_suffix, ends_with,
  replace, replace_from, after_prefix, arith,
}
use dmanix.Base.TextLaws.{before_suffix_complete, ends_with_complete}
use dmanix.Headers.Names.{
  without_suffix, without_public, without_test, source_module, header_module, common_path,
  files_belong_to_same_module,
}
use dmanix.Headers.Modules.{same_complete}

-- Where a file of the module may stand, and what its name may have behind that of the module.
pub data Folder : Type 0 where
  module_folder public_folder internal_folder : Folder

pub data TestMark : Type 0 where
  plain test unittest : TestMark

abbrev pub folder_text : Folder → Text
folder_text module_folder = codes "/"
folder_text public_folder = codes "/public/"
folder_text internal_folder = codes "/internal/"

abbrev pub test_text : TestMark → Text
test_text plain = []
test_text test = codes "_test"
test_text unittest = codes "_unittest"

abbrev pub NoSlash : Text → Type 0
NoSlash s = All (λ c. (c == b'/') ≡ false) s

abbrev pub path : Text → Folder → Text → Text
path directory folder base = directory ++ (folder_text folder ++ base)

replace-plain :
    (p q d t : Text) → NoSlash d → replace (b'/' ∷ p) q (d ++ t) ≡ d ++ replace (b'/' ∷ p) q t
unfolding replace replace_from starts_with after_prefix
replace-plain p q [] t h = refl
replace-plain p q (c ∷ d) t h = ground (arith, replace-plain p q d t h.1)

replace-all_plain : (p q s : Text) → NoSlash s → replace (b'/' ∷ p) q s ≡ s
unfolding replace replace_from
replace-all_plain p q s h = rw append-nil at (replace-plain p q s [] h)

after_prefix-slash : (s p : Text) → NoSlash s → mem_char b'/' p ≡ true → after_prefix s p ≡ none
unfolding after_prefix mem_char
after_prefix-slash s [] h e = absurd (cc)
after_prefix-slash [] (d ∷ p) h e = refl
after_prefix-slash (c ∷ s) (d ∷ p) h e = ground (arith, after_prefix-slash s p h.1)

replace-other :
    (p q s : Text) → NoSlash s → mem_char b'/' p ≡ true → replace (b'/' ∷ p) q (b'/' ∷ s) ≡ b'/' ∷ s
replace-other p q s h e =
    unfold replace replace_from starts_with after_prefix in
    rw (after_prefix-slash s p h e) (ap (◌∷◌ b'/') (replace-all_plain p q s h))

common_nil : (h : Text) → ◌≡◌ {A = Bool × Text} (true, common_path h []) (true, [])
common_nil [] = refl
common_nil (c ∷ h) = refl

-- The directory `public` between two parts that have no slash goes, and `internal` stays, and the other way round.
public_gone :
    (s : Text)
    → NoSlash s
    → replace (codes "/public/") (codes "/") (codes "/public/" ++ s) ≡ b'/' ∷ s
public_gone s h =
    unfold replace replace_from starts_with after_prefix in
    ap (◌∷◌ b'/') (replace-all_plain (codes "public/") (codes "/") s h)

internal_gone :
    (s : Text)
    → NoSlash s
    → replace (codes "/internal/") (codes "/") (codes "/internal/" ++ s) ≡ b'/' ∷ s
internal_gone s h =
    unfold replace replace_from starts_with after_prefix in
    ap (◌∷◌ b'/') (replace-all_plain (codes "internal/") (codes "/") s h)

internal_stays :
    (s : Text)
    → NoSlash s
    → replace (codes "/public/") (codes "/") (codes "/internal/" ++ s) ≡ codes "/internal/" ++ s
internal_stays s h =
    unfold replace replace_from starts_with after_prefix in
    ap (λ (t : Text). codes "/internal" ++ t)
      (replace-other (codes "public/") (codes "/") s h (unfold mem_char in refl))

other-path :
    (p directory base : Text)
    → NoSlash directory
    → NoSlash base
    → mem_char b'/' p ≡ true
    → replace (b'/' ∷ p) (codes "/") (path directory module_folder base)
      ≡ path directory module_folder base
other-path p directory base h k e =
    replace-plain p (codes "/") directory (b'/' ∷ base) h
    ∙ ap (λ (t : Text). directory ++ t) (replace-other p (codes "/") base k e)

-- The two calls of `replace`.
without_public-path :
    (directory base : Text) (folder : Folder)
    → NoSlash directory
    → NoSlash base
    → without_public (path directory folder base) ≡ path directory module_folder base
without_public-path directory base module_folder h k =
    ap (replace (codes "/internal/") (codes "/"))
      (other-path (codes "public/") directory base h k (unfold mem_char in refl))
    ∙ other-path (codes "internal/") directory base h k (unfold mem_char in refl)
without_public-path directory base public_folder h k =
    ap (replace (codes "/internal/") (codes "/")) (
      replace-plain (codes "public/") (codes "/") directory (codes "/public/" ++ base) h
      ∙ ap (λ (t : Text). directory ++ t) (public_gone base k))
    ∙ other-path (codes "internal/") directory base h k (unfold mem_char in refl)
without_public-path directory base internal_folder h k =
    ap (replace (codes "/internal/") (codes "/")) (
      replace-plain (codes "public/") (codes "/") directory (codes "/internal/" ++ base) h
      ∙ ap (λ (t : Text). directory ++ t) (internal_stays base k))
    ∙ (replace-plain (codes "internal/") (codes "/") directory (codes "/internal/" ++ base) h
        ∙ ap (λ (t : Text). directory ++ t) (internal_gone base k))

-- The stem of a file's name has no mark of a test, or none of an inlined header.
abbrev pub Unmarked : Text → Type 0
Unmarked stem =
    (ends_with stem (codes "_test") ≡ false)
    × (ends_with stem (codes "_unittest") ≡ false)
    × (ends_with stem (codes "-inl") ≡ false)

unmarked : (s p : Text) → ends_with s p ≡ false → without_suffix s p ≡ s
unfolding ends_with
unmarked s p h = elim (Option-cases (before_suffix s p)) [
  | inl e ↦ rw e refl
  | inr (r, e) ↦ absurd (true≢false (rw e at h))
]

marked : (s p : Text) → without_suffix (s ++ p) p ≡ s
marked s p = rw (before_suffix_complete s p) refl

test_is_no_unittest : (s : Text) → ends_with (s ++ codes "_test") (codes "_unittest") ≡ false
unfolding ends_with before_suffix after_prefix
test_is_no_unittest s = rw reverse-append refl

without_test-mark :
    (s : Text) (mark : TestMark) → Unmarked s → without_test (s ++ test_text mark) ≡ s
without_test-mark s plain h = rw (append-nil, h.1) (unmarked s (codes "_test") h.0)
without_test-mark s test h = rw (test_is_no_unittest s) (marked s (codes "_test"))
without_test-mark s unittest h =
    rw (ends_with_complete s (codes "_unittest")) (marked s (codes "_unittest"))

without_inl-mark :
    (s : Text) (inl_mark : Bool)
    → Unmarked s
    → without_suffix (s ++ (if inl_mark then codes "-inl" else [])) (codes "-inl") ≡ s
without_inl-mark s true h = marked s (codes "-inl")
without_inl-mark s false h = rw append-nil (unmarked s (codes "-inl") h.2)

-- DIRECTORY/NAME, or below `public` or `internal`, with a mark and an extension.
abbrev pub source_name : Text → Folder → Text → TestMark → Text
source_name directory folder base mark =
    (path directory folder base ++ test_text mark) ++ codes ".cc"

abbrev pub header_name : Text → Folder → Text → Bool → Text
header_name directory folder base is_inl =
    (path directory folder base ++ (if is_inl then codes "-inl" else [])) ++ codes ".h"

source_module-name :
    (directory base : Text) (folder : Folder) (mark : TestMark)
    → NoSlash directory
    → NoSlash base
    → Unmarked (path directory folder base)
    → source_module (source_name directory folder base mark)
      ≡ some (path directory module_folder base)
unfolding source_module
source_module-name directory base folder mark h k u = rw (
  before_suffix_complete (path directory folder base ++ test_text mark) (codes ".cc"),
  without_test-mark (path directory folder base) mark u,
  without_public-path directory base folder h k,
)

header_module-name :
    (directory base : Text) (folder : Folder) (is_inl : Bool)
    → NoSlash directory
    → NoSlash base
    → Unmarked (path directory folder base)
    → header_module (header_name directory folder base is_inl)
      ≡ some (path directory module_folder base)
unfolding header_module
header_module-name directory base folder is_inl h k u = rw (
  before_suffix_complete _ (codes ".h"),
  without_inl-mark (path directory folder base) is_inl u,
  without_public-path directory base folder h k,
)

-- Where neither the directory nor the name has a slash, and the name so far ends with no mark, the files NAME.cc,
-- NAME_test.cc and NAME_unittest.cc belong to the same module as NAME.h and NAME-inl.h, whichever of the directory
-- and its directories `public` and `internal` each of the two stands in, and no prefix is needed.
pub files_belong-names :
    (directory base : Text) (here there : Folder) (mark : TestMark) (is_inl : Bool)
    → NoSlash directory
    → NoSlash base
    → Unmarked (path directory here base)
    → Unmarked (path directory there base)
    → files_belong_to_same_module
        (source_name directory here base mark)
        (header_name directory there base is_inl)
      ≡ (true, [])
unfolding files_belong_to_same_module
files_belong-names directory base here there mark is_inl h k u v =
    same_complete _ _ [] _ _ (source_module-name directory base here mark h k u)
      (header_module-name directory base there is_inl h k v) refl
    ∙ common_nil (path directory module_folder base)
