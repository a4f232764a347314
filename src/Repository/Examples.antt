-- ===== src/Repository/Examples.antt =====
-- The theorems on file names at inputs, and tests.
use dmanix.Base.{
  ◌≡◌, refl, Bool, true, false, some, none, [], ◌∷◌, ◌++◌, Text, codes, mem_text, arith,
}
use dmanix.Paths.{dirname, join_path}
use dmanix.Repository.{repository_name, get_header_guard_cpp_variable, split_info, is_source}
use dmanix.Repository.Roots.{repository_name_ends, repository_name_hangs}

abbrev in_checkout : Text → Bool
in_checkout name = mem_text name (codes "/h/p/a/b.h" ∷ codes "/h/p/.git" ∷ [])

repository_name_ends_example :
    (name : Text) × (repository_name in_checkout 11 (codes "/h/p/a/b.h") ≡ some name)
    × ((front : Text) × (codes "/h/p/a/b.h" ≡ front ++ name))
repository_name_ends_example =
    repository_name_ends in_checkout 11 (codes "/h/p/a/b.h") (omega arith)
      (unfold mem_text join_path dirname in refl)

repository_name_hangs_example : repository_name (λ name. true) 1000 (codes "/b.h") ≡ none
repository_name_hangs_example =
    repository_name_hangs (λ name. true) 1000 (codes "/b.h") refl (λ n. refl)

guard_of_header :
    get_header_guard_cpp_variable in_checkout (λ name. name) 11 (codes "/h/p/a/b_flymake.h")
    ≡ some (codes "A_B_H_")
unfolding get_header_guard_cpp_variable mem_text
guard_of_header = refl

guard_in_flymake_dir :
    get_header_guard_cpp_variable (λ name. false) (λ name. name) 3 (codes "a/.flymake/b-c.h")
    ≡ some (codes "A_B_C_H_")
unfolding get_header_guard_cpp_variable
guard_in_flymake_dir = refl

name_split :
    split_info (codes "chrome/browser/browser.cc")
    ≡ (codes "chrome/browser", codes "browser", codes ".cc")
unfolding split_info
name_split = refl

source_known : is_source (codes "chrome/browser/browser.cc") ≡ true
unfolding is_source
source_known = refl
