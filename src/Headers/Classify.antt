-- ===== src/Headers/Classify.antt =====
-- scripts/cpplint.py: `_ClassifyInclude`.
use dmanix.Base.{
  Bool, true, false, ◌&&◌, ◌||◌, Option, none, some, ◌++◌, Text, codes, text_eq, mem_text,
  if◌then◌else◌,
}
use dmanix.Paths.{split_path, normpath}
use dmanix.Regex.{Regex, start}
use dmanix.Regex.Chars.{◌⨾◌, not_in_set, plus}
use dmanix.Regex.Search.{Found, match, whole}
use dmanix.Headers.{
  HeaderType, c_sys_header, cpp_sys_header, likely_my_header, possible_my_header, other_header,
}
use dmanix.Headers.Known.{stl_headers, cpp_headers}
use dmanix.Headers.Names.{drop_common_suffixes}

-- ^[^-_.]+
abbrev re_first_component : Regex
re_first_component = start ⨾ plus (not_in_set "-_.")

abbrev same_component : Option Found → Option Found → Bool
same_component none n = false
same_component (some m) none = false
same_component (some m) (some n) = text_eq (whole m) (whole n)

unfoldable pub is_cpp_header : Text → Bool
unfolding mem_text stl_headers cpp_headers
is_cpp_header include = mem_text include stl_headers || mem_text include cpp_headers

-- The directory and the base name, without common suffixes.
unfoldable pub split_name : Text → Text × Text
unfolding split_path drop_common_suffixes
split_name filename = split_path (drop_common_suffixes filename)

abbrev in_same_directory : Text → Text → Bool
in_same_directory target_dir include_dir =
    text_eq include_dir target_dir
    || text_eq include_dir (normpath (target_dir ++ codes "/../public"))

-- `repository_name` is fileinfo.RepositoryName().
unfoldable pub classify_include : Text → Text → Bool → HeaderType
unfolding is_cpp_header split_name match whole normpath
classify_include repository_name include true =
    if is_cpp_header include then cpp_sys_header else c_sys_header
classify_include repository_name include false =
    let (target_dir, target_base) = split_name repository_name in
    let (include_dir, include_base) = split_name include in
    if text_eq target_base include_base && in_same_directory target_dir include_dir
    then likely_my_header
    else if same_component (match re_first_component target_base)
        (match re_first_component include_base)
    then possible_my_header
    else other_header
