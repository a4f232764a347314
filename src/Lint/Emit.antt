-- ===== src/Lint/Emit.antt =====
-- `_ShouldPrintError` and `Error`, and the calls of a check made one after the other.
use dmanix.Base.{
  ℕ, Bool, true, false, not, Option, none, some, List, [], ◌∷◌, ◌++◌, Text, codes, decimal,
  if◌then◌else◌, map_option,
}
use dmanix.Base.Int.{ltb_int}
use dmanix.Lint.{OutputFormat, emacs, vs7, Globals, Action, report, suppress}
use dmanix.Lint.Filters.{filter_loop}
use dmanix.Lint.Suppress.{is_error_suppressed_by_nolint}
use dmanix.Lint.Counts.{increment_error_count}

-- `none` is the failed assertion on a filter without a sign.
unfoldable pub should_print_error : Text → ℕ → ℕ → Globals → Option Bool
should_print_error category confidence linenum g =
    if is_error_suppressed_by_nolint category linenum g.suppressions
    then some false
    else if ltb_int confidence g.state.verbose_level
    then some false
    else map_option not (filter_loop category g.state.filters false)

-- The line that is written to stderr, with its line feed.
unfoldable pub error_line : OutputFormat → Text → ℕ → Text → ℕ → Text → Text
error_line vs7 filename linenum category confidence message =
    filename
    ++ codes "("
    ++ decimal linenum
    ++ codes "):  "
    ++ message
    ++ codes "  ["
    ++ category
    ++ codes "] ["
    ++ decimal confidence
    ++ codes "]"
    ++ 10 ∷ []
error_line emacs filename linenum category confidence message =
    filename
    ++ codes ":"
    ++ decimal linenum
    ++ codes ":  "
    ++ message
    ++ codes "  ["
    ++ category
    ++ codes "] ["
    ++ decimal confidence
    ++ codes "]"
    ++ 10 ∷ []

-- The two effects of an error that is printed.
unfoldable pub print_error : Text → ℕ → Text → ℕ → Text → Globals → Globals
print_error filename linenum category confidence message g = record g {
  state = increment_error_count category g.state;
  written =
      g.written
      ++ error_line g.state.output_format filename linenum category confidence message ∷ [];
}

abbrev print_if : Option Bool → Globals → Globals → Option Globals
print_if none printed g = none
print_if (some true) printed g = some printed
print_if (some false) printed g = some g

unfoldable pub error : Text → ℕ → Text → ℕ → Text → Globals → Option Globals
unfolding should_print_error print_error
error filename linenum category confidence message g =
    print_if (should_print_error category confidence linenum g)
      (print_error filename linenum category confidence message g) g

unfoldable pub perform : Action → Globals → Option Globals
unfolding error
perform (report filename linenum category confidence message) g =
    error filename linenum category confidence message g
perform (suppress key linenum) g =
    some (record g { suppressions = (key, linenum) ∷ g.suppressions })

abbrev pub bind_globals : Option Globals → (Globals → Option Globals) → Option Globals
bind_globals none f = none
bind_globals (some g) f = f g

unfoldable pub perform_all : List Action → Globals → Option Globals
unfolding perform
perform_all [] g = some g
perform_all (a ∷ rest) g = bind_globals (perform a g) (perform_all rest)
