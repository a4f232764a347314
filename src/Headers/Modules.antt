-- ===== src/Headers/Modules.antt =====
-- When a source file and a header belong to one module.
use mathlib.Core.Bool.{false≢true}
use dmanix.Base.{ℕ, ◌≡◌, refl, true, Option, none, some, ◌∷◌, ◌++◌, Text, before_suffix}
use dmanix.Base.TextLaws.{before_suffix_sound, before_suffix_complete}
use dmanix.Headers.Names.{
  source_module, header_module, same_module, ends_in_header, common_path,
  files_belong_to_same_module,
}

ends_complete :
    (prefix h : Text)
    → ends_in_header h (before_suffix (prefix ++ h) h) ≡ (true, common_path h prefix)
ends_complete prefix h = rw (before_suffix_complete prefix h)

pub same_complete :
    (o p : Option Text) (prefix c h : Text)
    → o ≡ some c
    → p ≡ some h
    → c ≡ prefix ++ h
    → same_module o p ≡ (true, common_path h prefix)
same_complete o p prefix c h e k q = rw (e, k, q) (ends_complete prefix h)

ends_prefix :
    (c : Text) (x : ℕ) (h : Text) (o : Option Text)
    → before_suffix c (x ∷ h) ≡ o
    → (ends_in_header (x ∷ h) o).0 ≡ true
    → c ≡ (ends_in_header (x ∷ h) o).1 ++ x ∷ h
ends_prefix c x h none e k = absurd (false≢true k)
ends_prefix c x h (some before) e k = before_suffix_sound c (x ∷ h) before e

-- The prefix that comes with the answer yes, put before a header's module name that is not empty, is
-- the source file's module name.
pub files_belong-prefix :
    (filename_cc filename_h c : Text) (x : ℕ) (h : Text)
    → (files_belong_to_same_module filename_cc filename_h).0 ≡ true
    → source_module filename_cc ≡ some c
    → header_module filename_h ≡ some (x ∷ h)
    → c ≡ (files_belong_to_same_module filename_cc filename_h).1 ++ x ∷ h
files_belong-prefix filename_cc filename_h c x h same_file e k =
    let same : files_belong_to_same_module filename_cc filename_h
        ≡ ends_in_header (x ∷ h) (before_suffix c (x ∷ h)) =
      unfold files_belong_to_same_module in rw (e, k) in
    let same_file' : (ends_in_header (x ∷ h) (before_suffix c (x ∷ h))).0 ≡ true =
      rw same at same_file in
    rw same (ends_prefix c x h (before_suffix c (x ∷ h)) refl same_file')
