-- ===== src/Process/Quiet.antt =====
-- Above the highest confidence nothing of a file is reported.
use dmanix.Base.{
  ℕ, ◌≡◌, ◌<◌, refl, sym, ◌∙◌, ap, Bool, true, Option, some, List, [], ◌∷◌, ◌++◌, Text, All, leb,
  lt→ltb, mem_text, Bool-cases, inl, inr, arith,
}
use dmanix.Base.Int.{ℤ, pos, negsuc, ltb_int}
use dmanix.Lint.{Globals, Action, report, suppress}
use dmanix.Lint.Categories.{error_categories}
use dmanix.Lint.Suppress.{is_error_suppressed_by_nolint}
use dmanix.Lint.Counts.{set_verbose_level}
use dmanix.Lint.Emit.{should_print_error, error, perform, perform_all}
use dmanix.Lint.Proper.{IsProper, Proper, append-Proper, proper_rules}
use dmanix.Whole.{read_lines}
use dmanix.Process.Proper.{process_file_data-Proper}
use dmanix.Process.Branches.{
  cleared_suppressions, unreadable, ignored, checked, process_file-Processed,
}
use dmanix.Process.File.{System, done_processing, return_actions, process_file}

-- The calls leave the counts and stderr as they are.
record Silent (g g' : Globals) : Type 0 where
  pub same_state : g'.state ≡ g.state
  pub same_written : g'.written ≡ g.written

above_five :
    (confidence : ℕ) (level : ℤ)
    → leb confidence 5 ≡ true
    → ltb_int 5 level ≡ true
    → ltb_int confidence level ≡ true
above_five confidence (pos level) l h = ground arith
above_five confidence (negsuc level) l h = absurd (cc)

error-quiet :
    (filename : Text) (linenum : ℕ) (category : Text) (confidence : ℕ) (message : Text)
    (g : Globals)
    → leb confidence 5 ≡ true
    → ltb_int 5 g.state.verbose_level ≡ true
    → error filename linenum category confidence message g ≡ some g
unfolding error should_print_error
error-quiet filename linenum category confidence message g l h =
    let low : ltb_int confidence g.state.verbose_level ≡ true =
      above_five confidence g.state.verbose_level l h in
    elim (Bool-cases (is_error_suppressed_by_nolint category linenum g.suppressions)) [
      | inl e ↦ rw e refl
      | inr e ↦ rw (e, low) refl
    ]

perform-quiet :
    (filename : Text) (a : Action) (g : Globals)
    → IsProper filename a
    → ltb_int 5 g.state.verbose_level ≡ true
    → (g' : Globals) × (perform a g ≡ some g') × Silent g g'
unfolding perform IsProper
perform-quiet filename (report f linenum category confidence message) g p h = (
  g,
  error-quiet f linenum category confidence message g p.2 h,
  record { same_state = refl; same_written = refl },
)
perform-quiet filename (suppress key linenum) g p h =
    (_, refl, record { same_state = refl; same_written = refl })

perform_all-quiet :
    (filename : Text) (actions : List Action) (g : Globals)
    → All (IsProper filename) actions
    → ltb_int 5 g.state.verbose_level ≡ true
    → (g' : Globals) × (perform_all actions g ≡ some g') × Silent g g'
unfolding perform_all
perform_all-quiet filename [] g p h = (g, refl, record { same_state = refl; same_written = refl })
perform_all-quiet filename (a ∷ rest) g p h =
    let (b, e, s) = perform-quiet filename a g p.0 h in
    let (c, k, t) = perform_all-quiet filename rest b p.1 (rw s.same_state h) in
    (
      c,
      rw e k,
      record {
        same_state = t.same_state ∙ s.same_state;
        same_written = t.same_written ∙ s.same_written;
      },
    )

return_actions-Proper :
    (system : System) (filename : Text) (found : Bool)
    → Proper filename (return_actions system filename found)
unfolding mem_text error_categories
return_actions-Proper system filename found = search proper_rules

-- At a verbosity level above 5 ProcessFile changes nothing of the state but the level: no error of the file is
-- counted, whatever the file holds.
pub process_file-quiet :
    (system : System) (filename : Text) (vlevel : ℕ) (g g' : Globals)
    → 5 < vlevel
    → process_file system filename (pos vlevel) g ≡ some g'
    → g'.state ≡ (set_verbose_level (pos vlevel) g.state).1
process_file-quiet system filename vlevel g g' h e =
    elim (process_file-Processed system filename (pos vlevel) g g' e) [
      | unreadable i same ↦ ap (λ (x : Globals). x.state) same
      | ignored text i b same ↦ ap (λ (x : Globals). x.state) same ∙ unfold done_processing in refl
      | checked text setting actions done i b n k p same ↦
          let proper : Proper filename actions =
            rw n at (process_file_data-Proper setting (read_lines text).0 actions k) in
          let (done', p', s) =
            perform_all-quiet filename
              (actions ++ return_actions system filename (read_lines text).1)
              (cleared_suppressions (pos vlevel) g)
              (append-Proper proper
                (return_actions-Proper system filename (read_lines text).1)).each
              (unfold set_verbose_level in lt→ltb 5 vlevel h) in
          let u : ◌≡◌ {A = Option Globals} (some done') (some done) = sym p' ∙ p in
          let v : done' ≡ done = cc in
          ap (λ (x : Globals). x.state) same
          ∙ unfold done_processing in ap (λ (x : Globals). x.state) (sym v) ∙ s.same_state
    ]
