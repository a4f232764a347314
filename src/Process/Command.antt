-- ===== src/Process/Command.antt =====
-- scripts/cpplint.py: `PrintUsage`, `PrintCategories`, `ParseArguments` and `main`. What `getopt` and `int` make of
-- the arguments is an argument.
use dmanix.Base.{
  Bool, not, Option, none, some, List, [], ◌∷◌, ◌++◌, Text, codes, text_eq, is_nil_text, ◌==◌,
  if◌then◌else◌,
}
use dmanix.Base.Int.{ℤ}
use dmanix.Lint.{
  Counting, total, toplevel, detailed, OutputFormat, emacs, vs7, CppLintState, Globals,
}
use dmanix.Lint.Filters.{set_filters}
use dmanix.Lint.Counts.{
  set_output_format, set_verbose_level, set_counting_style, reset_error_counts, print_error_counts,
}
use dmanix.Process.File.{System, process_file}

-- How the program ends before it reads a file: with the usage and a message, with the list of categories, or with an
-- exception that nothing catches.
pub data Exit : Type 0 where
  usage : Option Text → Exit
  print_categories : Exit
  uncaught : Exit

-- The variables of ParseArguments. The counting style '' counts as 'total' does.
pub record Arguments : Type 0 where
  pub verbosity : ℤ
  pub output_format : OutputFormat
  pub filters : Text
  pub counting_style : Counting

abbrev pub initial_arguments : CppLintState → Arguments
initial_arguments s = record {
  verbosity = s.verbose_level;
  output_format = s.output_format;
  filters = [];
  counting_style = total;
}

pub data Result (A : Type 0) : Type 0 where
  exits : Exit → Result A
  goes_on : A → Result A

abbrev pub bind_result : {A B : Type 0} → Result A → (A → Result B) → Result B
bind_result (exits e) f = exits e
bind_result (goes_on a) f = f a

unfoldable pub output_option : Text → Arguments → Result Arguments
unfolding text_eq
output_option val a =
    if text_eq val (codes "emacs")
    then goes_on (record a { output_format = emacs })
    else if text_eq val (codes "vs7")
    then goes_on (record a { output_format = vs7 })
    else exits (usage (some (codes "The only allowed output formats are emacs and vs7.")))

unfoldable pub counting_option : Text → Arguments → Result Arguments
unfolding text_eq
counting_option val a =
    if text_eq val (codes "total")
    then goes_on (record a { counting_style = total })
    else if text_eq val (codes "toplevel")
    then goes_on (record a { counting_style = toplevel })
    else if text_eq val (codes "detailed")
    then goes_on (record a { counting_style = detailed })
    else exits (usage (some (codes "Valid counting options are total, toplevel, and detailed")))

abbrev verbose_option : Option ℤ → Arguments → Result Arguments
verbose_option none a = exits uncaught
verbose_option (some level) a = goes_on (record a { verbosity = level })

abbrev filter_option : Text → Arguments → Result Arguments
filter_option val a =
    if is_nil_text val then exits print_categories else goes_on (record a { filters = val })

-- `to_level` is `int`; `none` is a ValueError.
module _ (to_level : Text → Option ℤ) where
  unfoldable pub take_option : Text → Text → Arguments → Result Arguments
  unfolding text_eq output_option counting_option
  take_option opt val a =
      if text_eq opt (codes "--help")
      then exits (usage none)
      else if text_eq opt (codes "--output")
      then output_option val a
      else if text_eq opt (codes "--verbose")
      then verbose_option (to_level val) a
      else if text_eq opt (codes "--filter")
      then filter_option val a
      else if text_eq opt (codes "--counting")
      then counting_option val a
      else goes_on a

  unfoldable pub take_options : List (Text × Text) → Arguments → Result Arguments
  unfolding take_option
  take_options [] a = goes_on a
  take_options ((opt, val) ∷ opts) a = bind_result (take_option opt val a) (take_options opts)

  abbrev pub with_filters : Arguments → CppLintState × Option Text → Result CppLintState
  with_filters a (s, some _) = exits uncaught
  with_filters a (s, none) = goes_on (set_counting_style a.counting_style s)

  -- The four calls that set the state; a filter without a sign raises a ValueError.
  unfoldable pub store_arguments : CppLintState → Arguments → Result CppLintState
  unfolding set_output_format set_verbose_level set_filters set_counting_style
  store_arguments s a = with_filters a (
      set_filters (set_verbose_level a.verbosity (set_output_format a.output_format s)).1 a.filters)

  abbrev pub with_files : CppLintState → List Text → Arguments → Result (CppLintState × List Text)
  with_files s [] a = exits (usage (some (codes "No files were specified.")))
  with_files s (f ∷ filenames) a =
      bind_result (store_arguments s a) (λ s'. goes_on (s', f ∷ filenames))

  -- ParseArguments(args), for what getopt returns; `none` is a GetoptError.
  unfoldable pub parse_arguments :
      CppLintState → Option (List (Text × Text) × List Text) → Result (CppLintState × List Text)
  unfolding take_options store_arguments
  parse_arguments s none = exits (usage (some (codes "Invalid arguments.")))
  parse_arguments s (some (opts, filenames)) =
      bind_result (take_options opts (initial_arguments s)) (with_files s filenames)

-- PrintUsage(message) and PrintCategories(): what is written, the argument of sys.exit at the end.
unfoldable pub category_list : List Text → Text
category_list [] = []
category_list (cat ∷ cats) = codes "  " ++ cat ++ 10 ∷ category_list cats

abbrev pub bind_files : Option Globals → (Globals → Option Globals) → Option Globals
bind_files none f = none
bind_files (some g) f = f g

-- The loop of main over the files.
unfoldable pub process_files : System → List Text → Globals → Option Globals
unfolding process_file
process_files system [] g = some g
process_files system (filename ∷ filenames) g =
    bind_files (process_file system filename g.state.verbose_level g)
      (process_files system filenames)

abbrev pub finish_main : Option Globals → Option (Globals × Bool)
finish_main none = none
finish_main (some g) =
    some (
      record g { written = g.written ++ print_error_counts g.state },
      not (g.state.error_count == 0),
    )

-- main() behind ParseArguments: the globals, and whether the exit status says that there were errors.
unfoldable pub main : System → Globals → List Text → Option (Globals × Bool)
unfolding reset_error_counts process_files print_error_counts
main system g filenames =
    finish_main (process_files system filenames (record g { state = reset_error_counts g.state }))
