-- ===== src/Process/Branches.antt =====
-- The branches of `ProcessFile` that return.
use dmanix.Base.{
  ◌≡◌, refl, ap, suc, length, true, false, Option, none, some, List, [], ◌∷◌, ◌++◌, Text, codes,
  Bool-cases, inl, inr,
}
use dmanix.Base.Int.{ℤ}
use dmanix.Lint.{Globals, Action}
use dmanix.Lint.Suppress.{reset_nolint_suppressions}
use dmanix.Lint.Counts.{set_verbose_level}
use dmanix.Lint.Emit.{perform_all}
use dmanix.Repository.{repository_name}
use dmanix.Whole.{read_lines}
use dmanix.Process.{Setting, process_file_data}
use dmanix.Process.File.{
  System, guard_variable, setting_with, setting_of, write, done_processing, is_ignored, done_if,
  return_actions, perform_checks, check_file, on_text, input_of, process_file,
}

-- The globals with the new verbosity level, and those that the checks of a file start from.
abbrev pub at_level : ℤ → Globals → Globals
at_level vlevel g = record g { state = (set_verbose_level vlevel g.state).1 }

abbrev pub cleared_suppressions : ℤ → Globals → Globals
cleared_suppressions vlevel g = record (at_level vlevel g) {
  suppressions = reset_nolint_suppressions;
}

-- How ProcessFile comes to its result: the file cannot be read; its extension is another one; or its checks end
-- and their calls go through.
pub data Processed (system : System) (filename : Text) (vlevel : ℤ) (g g' : Globals) : Type 0 where
  unreadable :
      input_of system filename ≡ none
      → g'
        ≡ write
            (codes "Skipping input '" ++ filename ++ codes "': Can't open for reading" ++ 10 ∷ [])
            (at_level vlevel g)
      → Processed system filename vlevel g g'
  ignored :
      (text : Text)
      → input_of system filename ≡ some text
      → is_ignored filename ≡ true
      → g'
        ≡ done_processing filename (
            write
              (codes "Ignoring " ++ filename ++ codes "; not a .cc or .h file" ++ 10 ∷ [])
              (at_level vlevel g))
      → Processed system filename vlevel g g'
  checked :
      (text : Text) (setting : Setting) (actions : List Action) (done : Globals)
      → input_of system filename ≡ some text
      → is_ignored filename ≡ false
      → setting.filename ≡ filename
      → process_file_data setting (read_lines text).0 ≡ some actions
      → perform_all
          (actions ++ return_actions system filename (read_lines text).1)
          (cleared_suppressions vlevel g)
        ≡ some done
      → g' ≡ done_processing filename done
      → Processed system filename vlevel g g'

some-injective : {A : Type 0} (x y : A) → ◌≡◌ {A = Option A} (some x) (some y) → y ≡ x
some-injective x y e = cc

setting_with-filename :
    (system : System) (filename : Text) (level : ℤ) (cppvar name : Option Text) (setting : Setting)
    → setting_with system filename level cppvar name ≡ some setting
    → setting.filename ≡ filename
setting_with-filename system filename level none name setting e = absurd (cc)
setting_with-filename system filename level (some cppvar) none setting e = absurd (cc)
setting_with-filename system filename level (some cppvar) (some name) setting e =
    ap (λ (x : Setting). x.filename) (some-injective _ setting e)

setting_with-level :
    (system : System) (filename : Text) (level : ℤ) (cppvar name : Option Text) (setting : Setting)
    → setting_with system filename level cppvar name ≡ some setting
    → setting.verbose_level ≡ level
setting_with-level system filename level none name setting e = absurd (cc)
setting_with-level system filename level (some cppvar) none setting e = absurd (cc)
setting_with-level system filename level (some cppvar) (some name) setting e =
    ap (λ (x : Setting). x.verbose_level) (some-injective _ setting e)

pub setting_of-level :
    (system : System) (filename : Text) (level : ℤ) (setting : Setting)
    → setting_of system filename level ≡ some setting
    → setting.verbose_level ≡ level
setting_of-level system filename level setting e =
    setting_with-level system filename level (guard_variable system filename)
      (repository_name system.exists (suc (length (system.full_name filename)))
        (system.full_name filename))
      setting (unfold setting_of in e)

module _ (system : System) (filename : Text) (vlevel : ℤ) (g g' : Globals) (text : Text) where
  on_performed :
      (setting : Setting) (actions : List Action) (o : Option Globals)
      → input_of system filename ≡ some text
      → is_ignored filename ≡ false
      → setting.filename ≡ filename
      → process_file_data setting (read_lines text).0 ≡ some actions
      → perform_all
          (actions ++ return_actions system filename (read_lines text).1)
          (cleared_suppressions vlevel g)
        ≡ o
      → done_if filename o ≡ some g'
      → Processed system filename vlevel g g'
  on_performed setting actions none i b n k p e = absurd (cc)
  on_performed setting actions (some done) i b n k p e =
      checked text setting actions done i b n k p (some-injective _ g' e)

  on_checks :
      (setting : Setting) (o : Option (List Action))
      → input_of system filename ≡ some text
      → is_ignored filename ≡ false
      → setting.filename ≡ filename
      → process_file_data setting (read_lines text).0 ≡ o
      → perform_checks filename
          (return_actions system filename (read_lines text).1)
          o
          (at_level vlevel g)
        ≡ some g'
      → Processed system filename vlevel g g'
  on_checks setting none i b n k e = absurd (cc)
  on_checks setting (some actions) i b n k e = on_performed setting actions _ i b n k refl e

  on_setting :
      (o : Option Setting)
      → input_of system filename ≡ some text
      → is_ignored filename ≡ false
      → setting_of system filename vlevel ≡ o
      → check_file system filename (read_lines text) o (at_level vlevel g) ≡ some g'
      → Processed system filename vlevel g g'
  on_setting none i b n e = absurd (cc)
  on_setting (some setting) i b n e =
      on_checks setting _ i b
        (setting_with-filename system filename vlevel (guard_variable system filename)
          (repository_name system.exists (suc (length (system.full_name filename)))
            (system.full_name filename))
          setting (unfold setting_of in n))
        refl e

on_input :
    (system : System) (filename : Text) (vlevel : ℤ) (g g' : Globals) (o : Option Text)
    → input_of system filename ≡ o
    → on_text system filename vlevel o (at_level vlevel g) ≡ some g'
    → Processed system filename vlevel g g'
on_input system filename vlevel g g' none i e = unreadable i (some-injective _ g' e)
on_input system filename vlevel g g' (some text) i e = elim (Bool-cases (is_ignored filename)) [
  | inl b ↦ ignored text i b (some-injective _ g' (rw b at e))
  | inr b ↦ on_setting system filename vlevel g g' text _ i b refl (rw b at e)
]

pub process_file-Processed :
    (system : System) (filename : Text) (vlevel : ℤ) (g g' : Globals)
    → process_file system filename vlevel g ≡ some g'
    → Processed system filename vlevel g g'
process_file-Processed system filename vlevel g g' e =
    on_input system filename vlevel g g' (input_of system filename) refl (unfold process_file in e)
