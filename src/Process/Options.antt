-- ===== src/Process/Options.antt =====
-- What `ParseArguments` promises when it returns.
use dmanix.Base.{◌≡◌, ◌≢◌, refl, Option, none, some, List, [], ◌∷◌, ◌++◌, Text, All, split_char}
use dmanix.Base.Int.{ℤ}
use dmanix.Lint.{CppLintState, Globals, Action}
use dmanix.Lint.Filters.{set_filters, clean_filters}
use dmanix.Lint.Filters.Priority.{Signed, first_unsigned-none}
use dmanix.Lint.Categories.{default_filters}
use dmanix.Lint.Emit.{perform_all}
use dmanix.Lint.Accounting.{perform_all-Advances}
use dmanix.Lint.Counts.{set_output_format, set_verbose_level, set_counting_style}
use dmanix.Process.Command.{
  Arguments, initial_arguments, Result, exits, goes_on, bind_result, take_options, with_filters,
  store_arguments, with_files, parse_arguments,
}

goes_on-injective : {A : Type 0} (x y : A) → goes_on x ≡ goes_on y → y ≡ x
goes_on-injective x y e = cc

set_filters-Signed :
    (s : CppLintState) (filters : Text)
    → (set_filters s filters).1 ≡ none
    → All Signed (set_filters s filters).0.filters
unfolding set_filters
set_filters-Signed s filters h =
    first_unsigned-none (default_filters ++ clean_filters (split_char b',' filters)) h

module _ (to_level : Text → Option ℤ) where
  with_filters-Signed :
      (a : Arguments) (r : CppLintState × Option Text) (s' : CppLintState)
      → (r.1 ≡ none → All Signed r.0.filters)
      → with_filters to_level a r ≡ goes_on s'
      → All Signed s'.filters
  unfolding set_counting_style
  with_filters-Signed a (s, some f) s' h e = absurd (cc)
  with_filters-Signed a (s, none) s' h e =
      let same : s' ≡ set_counting_style a.counting_style s = goes_on-injective _ s' e in
      rw same (h refl)

  store_arguments-Signed :
      (s s' : CppLintState) (a : Arguments)
      → store_arguments to_level s a ≡ goes_on s'
      → All Signed s'.filters
  store_arguments-Signed s s' a e =
      let levelled = (set_verbose_level a.verbosity (set_output_format a.output_format s)).1 in
      with_filters-Signed a (set_filters levelled a.filters) s'
        (set_filters-Signed levelled a.filters) (unfold store_arguments in e)

  on_stored :
      (f : Text) (filenames : List Text) (s' : CppLintState) (files : List Text)
      (r : Result CppLintState)
      → bind_result {B = CppLintState × List Text} r (λ s. goes_on (s, f ∷ filenames))
        ≡ goes_on (s', files)
      → (r ≡ goes_on s') × (files ≡ f ∷ filenames)
  on_stored f filenames s' files (exits x) e = absurd (cc)
  on_stored f filenames s' files (goes_on s) e =
      let u : ◌≡◌ {A = CppLintState × List Text} (s', files) (s, f ∷ filenames) =
        goes_on-injective _ (s', files) e in
      let v : s' ≡ s = cc in (rw v refl, cc)

  with_files-Signed :
      (s : CppLintState) (filenames : List Text) (a : Arguments) (s' : CppLintState)
      (files : List Text)
      → with_files to_level s filenames a ≡ goes_on (s', files)
      → All Signed s'.filters × (files ≢ []) × (files ≡ filenames)
  with_files-Signed s [] a s' files e = absurd (cc)
  with_files-Signed s (f ∷ filenames) a s' files e =
      let (stored, same) = on_stored f filenames s' files (store_arguments to_level s a) e in
      (store_arguments-Signed s s' a stored, rw same (λ k. absurd (cc)), same)

  on_options :
      (s : CppLintState) (filenames : List Text) (s' : CppLintState) (files : List Text)
      (r : Result Arguments)
      → bind_result r (with_files to_level s filenames) ≡ goes_on (s', files)
      → All Signed s'.filters × (files ≢ []) × (files ≡ filenames)
  on_options s filenames s' files (exits x) e = absurd (cc)
  on_options s filenames s' files (goes_on a) e = with_files-Signed s filenames a s' files e

  -- Where ParseArguments returns, it gives the file names that getopt found, at least one, and every filter that it
  -- has set has a sign, so that calls of `error` never fail on their
  -- assertion.
  pub parse_arguments-Signed :
      (s : CppLintState) (opts : List (Text × Text)) (filenames files : List Text) (g : Globals)
      (actions : List Action)
      → parse_arguments to_level s (some (opts, filenames)) ≡ goes_on (g.state, files)
      → All Signed g.state.filters
        × (files ≢ [])
        × (files ≡ filenames)
        × ((g' : Globals) × (perform_all actions g ≡ some g'))
  parse_arguments-Signed s opts filenames files g actions e =
      let found =
        on_options s filenames g.state files (take_options to_level opts (initial_arguments s))
          (unfold parse_arguments in e) in
      let (g', p, _) = perform_all-Advances actions g found.0 in
      (found.0, found.1, found.2, (g', p))
