-- ===== src/Language.antt =====
-- scripts/cpplint.py: `CheckLanguage`. What FileInfo says of the file is an argument.
pub mod Proper
mod Examples
pub mod Casts
pub mod Sizes
pub mod References
pub mod Words
pub mod Arrays
pub mod Classes
use dmanix.Base.{
  ℕ, Bool, true, false, List, [], ◌∷◌, ◌++◌, Text, get_or, is_nil_text, if◌then◌else◌,
}
use dmanix.Regex.Search.{occurs}
use dmanix.Lint.{Action}
use dmanix.Lines.{CleansedLines}
use dmanix.Headers.{IncludeState}
use dmanix.Headers.Line.{re_include, check_include_line}
use dmanix.Language.Casts.{check_casts, check_rtti}
use dmanix.Language.References.{check_references, check_global_string, check_member_init}
use dmanix.Language.Words.{
  check_integers, check_c_functions, check_suspicious, check_format_string, check_memset,
  check_using_namespace,
}
use dmanix.Language.Arrays.{check_arrays}
use dmanix.Language.Classes.{check_disallow, check_unnamed_namespace}

-- CheckLanguage behind its two early returns. It reads neither `extended_line` nor `fullname`.
unfoldable pub check_code : Text → CleansedLines → ℕ → Text → Text → List Action
unfolding check_references check_casts check_global_string check_rtti check_member_init
    check_integers check_c_functions check_suspicious check_format_string check_memset
    check_using_namespace check_arrays check_disallow check_unnamed_namespace
check_code filename clean linenum file_extension line =
    check_references filename linenum line
    ++ check_casts filename clean linenum line
    ++ check_global_string filename linenum line
    ++ check_rtti filename linenum line
    ++ check_member_init filename linenum line
    ++ check_integers filename linenum line
    ++ check_c_functions filename linenum line
    ++ check_suspicious filename linenum line
    ++ check_format_string filename linenum line
    ++ check_memset filename linenum line
    ++ check_using_namespace filename linenum line
    ++ check_arrays filename linenum line
    ++ check_disallow filename clean linenum line
    ++ check_unnamed_namespace filename linenum file_extension line

-- The RepositoryName() and the BaseName() of FileInfo(filename).
pub record FileNames : Type 0 where
  pub repository_name : Text
  pub base_name : Text

-- CheckLanguage(filename, clean_lines, linenum, file_extension, include_state, error)
unfoldable pub check_language :
    Text → FileNames → CleansedLines → ℕ → Text → IncludeState → List Action × IncludeState
unfolding occurs check_include_line check_code
check_language filename names clean linenum file_extension include_state =
    let line = get_or clean.elided linenum [] in
    if is_nil_text line
    then ([], include_state)
    else if occurs re_include line
    then check_include_line filename names.repository_name names.base_name
        (get_or clean.lines linenum []) linenum include_state
    else (check_code filename clean linenum file_extension line, include_state)
