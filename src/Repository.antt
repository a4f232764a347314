-- ===== src/Repository.antt =====
-- scripts/cpplint.py: the class `FileInfo` and `GetHeaderGuardCPPVariable`. The file system is the argument
-- `exists`, os.path.exists; `full_name` is FullName(), with the working directory in front of it. The loops run
-- on fuel, since the first of them may not end.
pub mod Roots
pub mod Guards
mod Examples
use dmanix.Base.{
  ℕ, zero, suc, ◌+◌, Bool, true, false, not, ◌&&◌, ◌||◌, Option, none, some, List, [], ◌∷◌, ◌++◌,
  Text, codes, drop, length, reverse, text_eq, mem_char, mem_text, upper, is_ascii_space, ◌==◌,
  if◌then◌else◌,
}
use dmanix.Paths.{dirname, join_path, split_path, splitext}
use dmanix.Regex.{Regex, one, group, star, end}
use dmanix.Regex.Chars.{◌⨾◌, lit, not_in_set}
use dmanix.Regex.Search.{Found, search_in, group_text, whole, sub}

-- os.path.commonprefix of two names
unfoldable pub common_prefix : Text → Text → Text
common_prefix [] t = []
common_prefix (c ∷ s) [] = []
common_prefix (c ∷ s) (d ∷ t) = let rest = common_prefix s t in if c == d then c ∷ rest else []

-- fullname[len(prefix) + 1:] for the common prefix of the two directories
unfoldable pub below_root : Text → Text → Text → Text
unfolding common_prefix
below_root fullname root_dir project_dir =
    drop (length (common_prefix root_dir project_dir) + 1) fullname

module _ (exists : Text → Bool) where
  abbrev pub has_entry : Text → Text → Bool
  has_entry dir name = exists (join_path dir name)

  -- The loop up the directories of a Subversion checkout.
  unfoldable pub svn_root : ℕ → Text → Text → Option Text
  unfolding join_path dirname
  svn_root zero root_dir one_up_dir = none
  svn_root (suc fuel) root_dir one_up_dir =
      let further = svn_root fuel (dirname root_dir) (dirname one_up_dir) in
      if has_entry one_up_dir (codes ".svn") then further else some root_dir

  unfoldable pub is_root : Text → Bool
  unfolding join_path
  is_root dir =
      has_entry dir (codes ".git") || has_entry dir (codes ".hg") || has_entry dir (codes ".svn")

  -- The search for a top level directory.
  unfoldable pub find_root : ℕ → Text → Option Text
  unfolding is_root dirname text_eq
  find_root zero root_dir = none
  find_root (suc fuel) root_dir =
      let further = find_root fuel (dirname root_dir) in
      if not (text_eq root_dir (dirname root_dir)) && not (is_root root_dir)
      then further
      else some root_dir

  abbrev pub svn_name : Text → Text → Option Text → Option Text
  svn_name fullname project_dir none = none
  svn_name fullname project_dir (some root_dir) = some (below_root fullname root_dir project_dir)

  abbrev pub root_name : Text → Text → Option Text → Option Text
  root_name fullname project_dir none = none
  root_name fullname project_dir (some root_dir) =
      if is_root root_dir then some (below_root fullname root_dir project_dir) else some fullname

  -- RepositoryName(); `none` where the fuel does not suffice
  unfoldable pub repository_name : ℕ → Text → Option Text
  unfolding svn_root find_root join_path dirname is_root below_root
  repository_name fuel fullname =
      let project_dir = dirname fullname in
      if exists fullname
      then (if has_entry project_dir (codes ".svn")
          then svn_name fullname project_dir (svn_root fuel project_dir (dirname project_dir))
          else root_name fullname project_dir (find_root fuel project_dir))
      else some fullname

-- re.sub(r'_flymake\.h$', '.h', filename)
unfoldable pub without_flymake_suffix : Text → Text
unfolding sub
without_flymake_suffix = sub (lit "_flymake.h" ⨾ end) (codes ".h")

-- [-./\s]
abbrev pub re_separator : Regex
re_separator = one (λ d. mem_char d (codes "-./") || is_ascii_space d)

-- The name of the guard, for a repository name.
unfoldable pub guard_of : Text → Text
unfolding sub upper mem_char is_ascii_space
guard_of repository_name = upper (sub re_separator (codes "_") repository_name) ++ codes "_"

-- /\.flymake/([^/]*)$
abbrev re_flymake_dir : Regex
re_flymake_dir = lit "/.flymake/" ⨾ group 1 (star (not_in_set "/")) ⨾ end

abbrev replaced_dir : Text → Option Found → Text
replaced_dir filename none = filename
replaced_dir filename (some m) = reverse m.from.before ++ b'/' ∷ group_text m 1 ++ m.to.after

-- re.sub(r'/\.flymake/([^/]*)$', r'/\1', filename): the pattern ends with `$`, so there is one match at most.
unfoldable pub without_flymake_dir : Text → Text
unfolding search_in group_text
without_flymake_dir filename = replaced_dir filename (search_in re_flymake_dir filename)

abbrev guard_of_name : Option Text → Option Text
guard_of_name none = none
guard_of_name (some name) = some (guard_of name)

-- GetHeaderGuardCPPVariable(filename); `full_name` is FullName() of a file name.
unfoldable pub get_header_guard_cpp_variable :
    (Text → Bool) → (Text → Text) → ℕ → Text → Option Text
unfolding without_flymake_dir without_flymake_suffix repository_name guard_of
get_header_guard_cpp_variable exists full_name fuel filename = guard_of_name (
    repository_name exists fuel (full_name (without_flymake_dir (without_flymake_suffix filename))))

-- Split(): the directory, the base name and the extension; `repository_name` is RepositoryName().
unfoldable pub split_info : Text → Text × Text × Text
unfolding split_path splitext
split_info repository_name =
    let (project, rest) = split_path repository_name in
    let (base_name, extension) = splitext rest in (project, base_name, extension)

unfoldable pub base_name : Text → Text
unfolding split_info
base_name repository_name = (split_info repository_name).1

unfoldable pub extension : Text → Text
unfolding split_info
extension repository_name = (split_info repository_name).2

unfoldable pub no_extension : Text → Text
unfolding split_info
no_extension repository_name =
    let (project, base, _) = split_info repository_name in project ++ b'/' ∷ base

unfoldable pub is_source : Text → Bool
unfolding extension mem_text
is_source repository_name =
    mem_text (drop 1 (extension repository_name))
      (codes "c" ∷ codes "cc" ∷ codes "cpp" ∷ codes "cxx" ∷ [])
