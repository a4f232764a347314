-- ===== src/Process/Accounts.antt =====
-- The errors that are counted and the lines that are written, over whole files and over a run of the program.
use dmanix.Base.{
  Option-cases, inl, inr, ℕ, ◌+◌, ◌≡◌, refl, sym, ◌∙◌, Bool, not, Option, none, some, List, [], ◌∷◌,
  ◌++◌, Text, length, length-append, All, ◌==◌, arith, if◌then◌else◌,
}
use dmanix.Base.Int.{ℤ}
use dmanix.Lint.{Globals}
use dmanix.Lint.Filters.Priority.{Signed}
use dmanix.Lint.Counts.{
  CountsAgree, set_verbose_level, reset_error_counts, reset_error_counts-CountsAgree,
  print_error_counts,
}
use dmanix.Lint.Accounting.{Advances, perform_all-Advances}
use dmanix.Process.File.{System, write, done_processing, is_ignored, input_of, process_file}
use dmanix.Process.Branches.{
  at_level, cleared_suppressions, unreadable, ignored, checked, process_file-Processed,
}
use dmanix.Process.Command.{process_files, finish_main, main}

-- The lines that ProcessFile writes of itself: that it skips the file, or that it has done with it, and before that
-- that it ignores it.
abbrev pub notices_of : Bool → Option Text → ℕ
notices_of is_other none = 1
notices_of is_other (some text) = if is_other then 2 else 1

unfoldable pub notices : System → Text → ℕ
unfolding is_ignored input_of
notices system filename = notices_of (is_ignored filename) (input_of system filename)

-- Between the globals before and after, `n` lines were written beside those of the errors.
pub record Noted (n : ℕ) (g g' : Globals) : Type 0 where
  pub same_filters : g'.state.filters ≡ g.state.filters
  pub in_step :
      g'.state.error_count + (length g.written + n) ≡ g.state.error_count + length g'.written
  pub agreement : CountsAgree g.state → CountsAgree g'.state

Noted-trans : {m n : ℕ} {a b c : Globals} → Noted m a b → Noted n b c → Noted (m + n) a c
Noted-trans p q = record {
  same_filters = q.same_filters ∙ p.same_filters;
  in_step = omega (arith, p.in_step, q.in_step);
  agreement = λ h. q.agreement (p.agreement h);
}

Noted-write : (text : Text) (g : Globals) → Noted 1 g (write text g)
Noted-write text g = record {
  same_filters = refl;
  in_step = omega (arith, length-append g.written (text ∷ []));
  agreement = λ h. h;
}

Noted-done : (filename : Text) (g : Globals) → Noted 1 g (done_processing filename g)
unfolding done_processing
Noted-done filename g = Noted-write _ g

Noted-Advances : {a b : Globals} → Advances a b → Noted 0 a b
Noted-Advances p = record {
  same_filters = p.same_filters;
  in_step = omega (arith, p.in_step);
  agreement = p.agreement;
}

Noted-at_level : (vlevel : ℤ) (g : Globals) → Noted 0 g (at_level vlevel g)
unfolding set_verbose_level
Noted-at_level vlevel g = record { same_filters = refl; in_step = omega arith; agreement = λ h. h }

Noted-cleared : (vlevel : ℤ) (g : Globals) → Noted 0 g (cleared_suppressions vlevel g)
unfolding set_verbose_level
Noted-cleared vlevel g = record { same_filters = refl; in_step = omega arith; agreement = λ h. h }

-- Where every filter has a sign and ProcessFile returns, as many errors have been counted as lines written but for
-- its own notices: one, or two for a file with another extension. Filters stay, and counts by category that
-- added up to the total still do.
pub process_file-Noted :
    (system : System) (filename : Text) (vlevel : ℤ) (g g' : Globals)
    → All Signed g.state.filters
    → process_file system filename vlevel g ≡ some g'
    → Noted (notices system filename) g g'
unfolding notices
process_file-Noted system filename vlevel g g' h e =
    elim (process_file-Processed system filename vlevel g g' e) [
      | unreadable i same ↦
          rw (i, same) (Noted-trans (Noted-at_level vlevel g) (Noted-write _ (at_level vlevel g)))
      | ignored text i b same ↦
          rw (i, b, same)
            (Noted-trans (Noted-at_level vlevel g)
              (Noted-trans (Noted-write _ (at_level vlevel g)) (Noted-done filename _)))
      | checked text setting actions done i b n k p same ↦
          let (done', p', a) =
            perform_all-Advances _ (cleared_suppressions vlevel g)
              (unfold set_verbose_level in h) in
          let u : ◌≡◌ {A = Option Globals} (some done') (some done) = sym p' ∙ p in
          let v : done' ≡ done = cc in
          rw (i, b, same, sym v)
            (Noted-trans (Noted-cleared vlevel g)
              (Noted-trans (Noted-Advances a) (Noted-done filename done')))
    ]

unfoldable pub sum_notices : System → List Text → ℕ
unfolding notices
sum_notices system [] = 0
sum_notices system (filename ∷ filenames) = notices system filename + sum_notices system filenames

process_files-Noted :
    (system : System) (filenames : List Text) (g g' : Globals)
    → All Signed g.state.filters
    → process_files system filenames g ≡ some g'
    → Noted (sum_notices system filenames) g g'
unfolding process_files sum_notices
process_files-Noted system [] g g' h e =
    let same : g' ≡ g = cc in
    rw same (record { same_filters = refl; in_step = omega arith; agreement = λ k. k })
process_files-Noted system (filename ∷ filenames) g g' h e =
    elim (Option-cases (process_file system filename g.state.verbose_level g)) [
      | inl n ↦ absurd (let u : ◌≡◌ {A = Option Globals} none (some g') = rw n at e in cc)
      | inr (b, k) ↦
          let first = process_file-Noted system filename g.state.verbose_level g b h k in
          Noted-trans first
            (process_files-Noted system filenames b g' (rw first.same_filters h) (rw k at e))
    ]

-- Where every filter has a sign and `main` comes to its end: the errors it has counted are the lines it has written,
-- but for the notices of the files and the lines of PrintErrorCounts; the counts by category add up to them; and the
-- exit status is that of a failure exactly when there are any.
pub main-accounts :
    (system : System) (g g' : Globals) (filenames : List Text) (failed : Bool)
    → All Signed g.state.filters
    → main system g filenames ≡ some (g', failed)
    → (length g'.written
        ≡ length g.written
          + (sum_notices system filenames
              + (g'.state.error_count + length (print_error_counts g'.state))))
      × CountsAgree g'.state
      × (failed ≡ not (g'.state.error_count == 0))
main-accounts system g g' filenames failed h e =
    elim (Option-cases (process_files system filenames start)) [
      | inl n ↦
          absurd
            (let u : ◌≡◌ {A = Option (Globals × Bool)} none (some (g', failed)) = rw n at ran in cc)
      | inr (b, k) ↦
          let n = process_files-Noted system filenames start b (unfold reset_error_counts in h) k in
          let u : ◌≡◌ {A = Option (Globals × Bool)}
              (some (
                record b { written = b.written ++ print_error_counts b.state },
                not (b.state.error_count == 0),
              ))
              (some (g', failed)) =
            rw k at ran in
          let v : g' ≡ record b { written = b.written ++ print_error_counts b.state } = cc in
          let w : failed ≡ not (b.state.error_count == 0) = cc in
          rw (v, w)
            (
              omega (
                arith,
                n.in_step,
                length-append b.written (print_error_counts b.state),
                zero_errors,
              ),
              n.agreement (reset_error_counts-CountsAgree g.state),
              refl,
            )
    ]
  where
    start : Globals
    start = record g { state = reset_error_counts g.state }

    zero_errors : start.state.error_count ≡ 0
    zero_errors = unfold reset_error_counts in refl

    ran : finish_main (process_files system filenames start) ≡ some (g', failed)
    ran = unfold main in e
