-- ===== src/Lint/Accounting.antt =====
-- The error count, the categories' counts and the lines on stderr keep in step.
use dmanix.Base.{
  ℕ, ◌+◌, ◌≡◌, refl, sym, ◌∙◌, Bool, true, false, not, ◌&&◌, Option, none, some, List, [], ◌∷◌,
  reverse, Text, length, length-append, All, arith,
}
use dmanix.Base.Int.{ℤ, pos, negsuc, ltb_int, int_leb}
use dmanix.Lint.{Globals, Action, report, suppress}
use dmanix.Lint.Filters.Priority.{Signed, first_that_applies, filter_loop-first_that_applies}
use dmanix.Lint.Suppress.{is_error_suppressed_by_nolint}
use dmanix.Lint.Counts.{increment_error_count, CountsAgree, increment_error_count-CountsAgree}
use dmanix.Lint.Emit.{should_print_error, error_line, print_error, error, perform, perform_all}

-- What holds between the globals before and after some calls.
pub record Advances (g g' : Globals) : Type 0 where
  pub same_filters : g'.state.filters ≡ g.state.filters
  pub same_level : g'.state.verbose_level ≡ g.state.verbose_level
  pub in_step : g'.state.error_count + length g.written ≡ g.state.error_count + length g'.written
  pub agreement : CountsAgree g.state → CountsAgree g'.state

Advances-refl : (g : Globals) → Advances g g
Advances-refl g = record {
  same_filters = refl;
  same_level = refl;
  in_step = refl;
  agreement = λ h. h;
}

Advances-trans : {a b c : Globals} → Advances a b → Advances b c → Advances a c
Advances-trans p q = record {
  same_filters = q.same_filters ∙ p.same_filters;
  same_level = q.same_level ∙ p.same_level;
  in_step = omega arith;
  agreement = λ h. q.agreement (p.agreement h);
}

print_error-Advances :
    (filename : Text) (linenum : ℕ) (category : Text) (confidence : ℕ) (message : Text)
    (g : Globals)
    → Advances g (print_error filename linenum category confidence message g)
print_error-Advances filename linenum category confidence message g =
    unfold print_error in
    record {
      same_filters = unfold increment_error_count in refl;
      same_level = unfold increment_error_count in refl;
      in_step =
          unfold increment_error_count in
          omega (
            arith,
            length-append g.written (
                error_line g.state.output_format filename linenum category confidence message ∷ []),
          );
      agreement = increment_error_count-CountsAgree category g.state;
    }

not-ltb_int : (n : ℕ) (i : ℤ) → not (ltb_int n i) ≡ int_leb i n
not-ltb_int n (pos m) = ground arith
not-ltb_int n (negsuc m) = refl

-- Where every filter has a sign, `_ShouldPrintError` answers, and says yes exactly when no NOLINT comment
-- suppresses the category on that line, the confidence reaches the verbosity level, and the last
-- filter that starts the category does not exclude it.
pub should_print_error_lem :
    (category : Text) (confidence linenum : ℕ) (g : Globals)
    → All Signed g.state.filters
    → should_print_error category confidence linenum g
      ≡ some (
          not (is_error_suppressed_by_nolint category linenum g.suppressions)
          && int_leb g.state.verbose_level confidence
          && not (first_that_applies category (reverse g.state.filters) false))
unfolding should_print_error
should_print_error_lem category confidence linenum g h = ground (
  arith,
  filter_loop-first_that_applies category g.state.filters false h,
  not-ltb_int confidence g.state.verbose_level,
)

error-Advances :
    (filename : Text) (linenum : ℕ) (category : Text) (confidence : ℕ) (message : Text)
    (g : Globals)
    → All Signed g.state.filters
    → (g' : Globals) × (error filename linenum category confidence message g ≡ some g')
      × Advances g g'
error-Advances filename linenum category confidence message g h =
    go (should_print_error category confidence linenum g) refl
  where
    go :
        (o : Option Bool)
        → should_print_error category confidence linenum g ≡ o
        → (g' : Globals) × (error filename linenum category confidence message g ≡ some g')
          × Advances g g'
    go none e = cc (sym e ∙ should_print_error_lem category confidence linenum g h)
    go (some true) e = (
      print_error filename linenum category confidence message g,
      unfold error in rw e,
      print_error-Advances filename linenum category confidence message g,
    )
    go (some false) e = (g, unfold error in rw e, Advances-refl g)

perform-Advances :
    (a : Action) (g : Globals)
    → All Signed g.state.filters
    → (g' : Globals) × (perform a g ≡ some g') × Advances g g'
perform-Advances (report filename linenum category confidence message) g h =
    unfold perform in error-Advances filename linenum category confidence message g h
perform-Advances (suppress key linenum) g h = (
  record g { suppressions = (key, linenum) ∷ g.suppressions },
  unfold perform in refl,
  record { same_filters = refl; same_level = refl; in_step = refl; agreement = λ k. k },
)

-- Where every filter has a sign, any calls of a check all go through; then as many errors were counted
-- as lines were written to stderr, the filters and the level are as before, and counts by category
-- that added up to the total still do.
pub perform_all-Advances :
    (actions : List Action) (g : Globals)
    → All Signed g.state.filters
    → (g' : Globals) × (perform_all actions g ≡ some g') × Advances g g'
unfolding perform_all
perform_all-Advances [] g h = (g, refl, Advances-refl g)
perform_all-Advances (a ∷ rest) g h =
    let (b, e, p) = perform-Advances a g h in
    let (c, k, q) = perform_all-Advances rest b (rw p.same_filters h) in
    (c, rw e k, Advances-trans p q)
