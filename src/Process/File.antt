-- ===== src/Process/File.antt =====
-- scripts/cpplint.py: `ProcessFile`. What the operating system answers is an argument.
use dmanix.Base.{
  suc, Bool, not, ◌&&◌, Option, none, some, List, [], ◌∷◌, ◌++◌, Text, codes, text_eq, length,
  mem_text, if◌then◌else◌,
}
use dmanix.Base.Int.{ℤ}
use dmanix.Paths.{split_after_last}
use dmanix.Lint.{Globals, Action}
use dmanix.Lint.Suppress.{reset_nolint_suppressions}
use dmanix.Lint.Counts.{set_verbose_level}
use dmanix.Lint.Emit.{perform_all}
use dmanix.Lint.Report.{error_if}
use dmanix.Repository.{
  without_flymake_suffix, without_flymake_dir, repository_name, get_header_guard_cpp_variable,
  base_name,
}
use dmanix.Whole.{read_lines}
use dmanix.Style.Width.{UnicodeData}
use dmanix.Process.{Setting, process_file_data}

-- Standard input and the files as decoded texts, `none` for an IOError; a file as its lines; os.linesep;
-- FullName() of a file name; os.path.exists; `unicodedata`.
pub record System : Type 0 where
  pub stdin : Option Text
  pub read_file : Text → Option Text
  pub open_file : Text → Option (List Text)
  pub linesep : Text
  pub full_name : Text → Text
  pub exists : Text → Bool
  pub unicodedata : UnicodeData

-- filename[filename.rfind('.') + 1:]
unfoldable pub file_extension_of : Text → Text
unfolding split_after_last
file_extension_of filename = (split_after_last b'.' filename).1

-- GetHeaderGuardCPPVariable(filename), which only a header asks for, with fuel for every character of the full name.
unfoldable pub guard_variable : System → Text → Option Text
unfolding text_eq file_extension_of get_header_guard_cpp_variable without_flymake_suffix
    without_flymake_dir
guard_variable system filename =
    if text_eq (file_extension_of filename) (codes "h")
    then get_header_guard_cpp_variable system.exists system.full_name
        (suc (length (system.full_name (without_flymake_dir (without_flymake_suffix filename)))))
        filename
    else some []

abbrev pub setting_with : System → Text → ℤ → Option Text → Option Text → Option Setting
setting_with system filename level none name = none
setting_with system filename level (some cppvar) none = none
setting_with system filename level (some cppvar) (some name) = some (record {
  filename = filename;
  file_extension = file_extension_of filename;
  cppvar = cppvar;
  full_name = system.full_name filename;
  names = record { repository_name = name; base_name = base_name name };
  verbose_level = level;
  unicodedata = system.unicodedata;
  open_file = system.open_file;
})

-- What the checks of the file read. RepositoryName() is asked for at once, where the program asks at the first
-- `#include`: `none` is its loop that does not end.
unfoldable pub setting_of : System → Text → ℤ → Option Setting
unfolding guard_variable repository_name base_name
setting_of system filename level =
    setting_with system filename level (guard_variable system filename) (
      repository_name system.exists (suc (length (system.full_name filename)))
        (system.full_name filename))

-- sys.stderr.write(text)
abbrev pub write : Text → Globals → Globals
write text g = record g { written = g.written ++ text ∷ [] }

unfoldable pub done_processing : Text → Globals → Globals
done_processing filename g = write (codes "Done processing " ++ filename ++ 10 ∷ []) g

unfoldable pub is_ignored : Text → Bool
unfolding text_eq mem_text file_extension_of
is_ignored filename =
    not (text_eq filename (codes "-"))
    && not (mem_text (file_extension_of filename) (codes "cc" ∷ codes "h" ∷ codes "cpp" ∷ []))

-- carriage_return_found and os.linesep != '\r\n'
abbrev pub return_actions : System → Text → Bool → List Action
return_actions system filename carriage_return_found =
    error_if (carriage_return_found && not (text_eq system.linesep (13 ∷ 10 ∷ []))) filename 0
      "whitespace/newline" 1
      (codes "One or more unexpected \\r (^M) found;" ++ codes "better to use only a \\n")

abbrev pub done_if : Text → Option Globals → Option Globals
done_if filename none = none
done_if filename (some g) = some (done_processing filename g)

-- ResetNolintSuppressions() and the calls that the checks make.
abbrev pub perform_checks : Text → List Action → Option (List Action) → Globals → Option Globals
perform_checks filename returns none g = none
perform_checks filename returns (some actions) g =
    done_if filename
      (perform_all (actions ++ returns) (record g { suppressions = reset_nolint_suppressions }))

abbrev pub check_file : System → Text → List Text × Bool → Option Setting → Globals → Option Globals
check_file system filename (lines, carriage_return_found) none g = none
check_file system filename (lines, carriage_return_found) (some setting) g =
    perform_checks filename (return_actions system filename carriage_return_found)
      (process_file_data setting lines) g

abbrev pub on_text : System → Text → ℤ → Option Text → Globals → Option Globals
on_text system filename level none g =
    some (
      write (codes "Skipping input '" ++ filename ++ codes "': Can't open for reading" ++ 10 ∷ [])
        g)
on_text system filename level (some text) g =
    if is_ignored filename
    then some (
        done_processing filename
          (write (codes "Ignoring " ++ filename ++ codes "; not a .cc or .h file" ++ 10 ∷ []) g))
    else check_file system filename (read_lines text) (setting_of system filename level) g

unfoldable pub input_of : System → Text → Option Text
unfolding text_eq
input_of system filename =
    if text_eq filename (codes "-") then system.stdin else system.read_file filename

-- ProcessFile(filename, vlevel)
unfoldable pub process_file : System → Text → ℤ → Globals → Option Globals
unfolding set_verbose_level input_of is_ignored done_processing read_lines setting_of
    process_file_data perform_all error_if reset_nolint_suppressions
process_file system filename vlevel g =
    on_text system filename vlevel (input_of system filename)
      (record g { state = (set_verbose_level vlevel g.state).1 })
