-- ===== src/Lint/Examples.antt =====
-- The theorems on errors, filters and suppressions at inputs.
use dmanix.Base.{
  ℕ, ◌≡◌, refl, ◌↔◌, inl, true, false, not, ◌&&◌, Option, none, some, List, [], ◌∷◌, reverse, Text,
  codes, text_eq, split_char, starts_with, mem_text, All, leb, ◌==◌,
}
use dmanix.Base.Int.{pos}
use dmanix.Regex.{results}
use dmanix.Regex.Search.{Found, search_in, group_of}
use dmanix.Lint.{detailed, emacs, CppLintState, Globals, Action, report, suppress}
use dmanix.Lint.Categories.{default_filters, error_categories}
use dmanix.Lint.Filters.{strip_bytes, set_filters, filter_loop, has_sign}
use dmanix.Lint.Filters.Priority.{first_that_applies, filter_loop-set_filters}
use dmanix.Lint.Filters.Validity.{IsFilterPart, set_filters-accepts}
use dmanix.Lint.Suppress.{re_suppression, parse_nolint_suppressions, is_error_suppressed_by_nolint}
use dmanix.Lint.Counts.{increment_error_count}
use dmanix.Lint.Emit.{should_print_error, error, perform_all}
use dmanix.Lint.Accounting.{Advances, should_print_error_lem, perform_all-Advances}
use dmanix.Lint.Silence.{bare_nolint-error, known_nolint-error}

abbrev initial : CppLintState
initial = record {
  verbose_level = pos 1;
  error_count = 0;
  filters = default_filters;
  counting = detailed;
  errors_by_category = [];
  output_format = emacs;
}

abbrev globals : Globals
globals = record { state = initial; suppressions = []; written = [] }

abbrev flag : Text
flag = codes "-whitespace, +whitespace/tab"

filter_loop-set_filters_example :
    filter_loop (codes "whitespace/tab") (set_filters initial flag).0.filters false
    ≡ some (
        first_that_applies
          (codes "whitespace/tab")
          (reverse (set_filters initial flag).0.filters)
          false)
filter_loop-set_filters_example =
    filter_loop-set_filters initial flag (codes "whitespace/tab")
      (unfold set_filters split_char strip_bytes in refl)

-- The later, longer filter wins.
tab_passes :
    filter_loop (codes "whitespace/tab") (set_filters initial flag).0.filters false ≡ some false
unfolding filter_loop set_filters starts_with split_char strip_bytes
tab_passes = refl

parens_excluded :
    filter_loop (codes "whitespace/parens") (set_filters initial flag).0.filters false ≡ some true
unfolding filter_loop set_filters starts_with split_char strip_bytes
parens_excluded = refl

set_filters-accepts_example :
    ((set_filters initial flag).1 ≡ none) ↔ All IsFilterPart (split_char b',' flag)
set_filters-accepts_example = set_filters-accepts initial flag

should_print_error_lem_example :
    should_print_error (codes "build/include_alpha") 4 7 globals
    ≡ some (
        not (is_error_suppressed_by_nolint (codes "build/include_alpha") 7 [])
        && leb 1 4
        && not (first_that_applies (codes "build/include_alpha") (reverse default_filters) false))
should_print_error_lem_example =
    should_print_error_lem (codes "build/include_alpha") 4 7 globals (unfold has_sign in (refl, tt))

abbrev two_reports : List Action
two_reports =
    report (codes "a.cc") 3 (codes "whitespace/tab") 1 (codes "Tab found; better to use spaces")
    ∷ report (codes "a.cc") 4 (codes "build/include_alpha") 4 (codes "Include")
    ∷ []

perform_all-Advances_example :
    (g' : Globals) × (perform_all two_reports globals ≡ some g') × Advances globals g'
perform_all-Advances_example =
    perform_all-Advances two_reports globals (unfold has_sign in (refl, tt))

-- The one error that passes the default filter is counted.
abbrev errors : Option Globals → ℕ
errors none = 0
errors (some g) = g.state.error_count

one_counted : errors (perform_all two_reports globals) ≡ 1
unfolding perform_all is_error_suppressed_by_nolint filter_loop starts_with increment_error_count
one_counted = refl

abbrev the_match : Option Found → Found
the_match none = record {
  from = record { before = []; after = []; groups = [] };
  to = record { before = []; after = []; groups = [] };
}
the_match (some m) = m

abbrev bare : Text
bare = codes "int x;  // NOLINT"

abbrev known : Text
known = codes "\t// NOLINT(whitespace/tab)"

bare_nolint-error_example :
    (g' : Globals) × (perform_all (parse_nolint_suppressions (codes "a.cc") bare 5) globals
      ≡ some g')
    × (g'.written ≡ [])
    × (error (codes "a.cc") 5 (codes "runtime/int") 4 (codes "m") g' ≡ some g')
bare_nolint-error_example =
    bare_nolint-error (codes "a.cc") bare (codes "runtime/int") (codes "m") 5 4 globals
      (the_match (search_in re_suppression bare)) (unfold search_in results in refl)
      (inl (unfold search_in results group_of in refl))

known_nolint-error_example :
    (g' : Globals) × (perform_all (parse_nolint_suppressions (codes "a.cc") known 5) globals
      ≡ some g')
    × (is_error_suppressed_by_nolint (codes "whitespace/tab") 5 g'.suppressions ≡ true)
    × ((other : Text) (line : ℕ)
        → (text_eq (codes "whitespace/tab") other && 5 == line) ≡ false
        → is_error_suppressed_by_nolint other line g'.suppressions
          ≡ is_error_suppressed_by_nolint other line [])
known_nolint-error_example =
    known_nolint-error (codes "a.cc") known (codes "whitespace/tab") 5 globals
      (the_match (search_in re_suppression known)) (unfold search_in results in refl)
      (unfold search_in results group_of in refl) (unfold mem_text error_categories in refl)

-- A parenthesis that is not closed names no category.
unclosed_nolint :
    parse_nolint_suppressions (codes "a.cc") (codes "x;  // NOLINT(build/include") 3
    ≡ suppress none 3 ∷ []
unfolding parse_nolint_suppressions
unclosed_nolint = refl

-- A filter without a sign.
unsigned_filter :
    (set_filters initial (codes "whitespace,runtime/printf")).1 ≡ some (codes "whitespace")
unfolding set_filters split_char strip_bytes
unsigned_filter = refl
