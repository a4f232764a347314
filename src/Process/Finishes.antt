-- ===== src/Process/Finishes.antt =====
-- A file that can be read is done with.
use dmanix.Base.{ℕ, ◌<◌, ◌≡◌, refl, false, some, List, [], ◌∷◌, ◌++◌, Text, codes, length, All}
use dmanix.Base.Int.{pos}
use dmanix.Lint.{Globals, Action}
use dmanix.Lint.Filters.Priority.{Signed}
use dmanix.Lint.Counts.{set_verbose_level}
use dmanix.Lint.Accounting.{perform_all-Advances}
use dmanix.Lines.{cleansed_lines}
use dmanix.Comments.{remove_multi_line_comments}
use dmanix.Whole.{with_markers, read_lines}
use dmanix.Process.{Setting}
use dmanix.Process.Ends.{Joins, process_file_data_ends}
use dmanix.Process.File.{
  System, setting_of, done_processing, is_ignored, return_actions, input_of, process_file,
}
use dmanix.Process.Branches.{cleared_suppressions, setting_of-level}

-- At a verbosity level that is not negative ProcessFile returns, and the last line that it writes is that the file is done with: where every filter has a sign,
-- the file can be read and has one of the three extensions, the names that FileInfo gives can be found, and for each
-- line that is left when the multi-line comments are cleared, a line before it that is not blank holds a semicolon
-- or the line is not an indented pair of braces with a semicolon.
pub process_file_finishes :
    (system : System) (filename : Text) (vlevel : ℕ) (g : Globals) (text : Text) (setting : Setting)
    → All Signed g.state.filters
    → input_of system filename ≡ some text
    → is_ignored filename ≡ false
    → setting_of system filename (pos vlevel) ≡ some setting
    → ((after : List Text) (reports : List Action)
        → remove_multi_line_comments setting.filename (with_markers (read_lines text).0)
          ≡ some (after, reports)
        → (k : ℕ) → k < length after
        → Joins (cleansed_lines after) k)
    → (g' : Globals) × (front : List Text) × (process_file system filename (pos vlevel) g ≡ some g')
      × (g'.written ≡ front ++ (codes "Done processing " ++ filename ++ 10 ∷ []) ∷ [])
process_file_finishes system filename vlevel g text setting h i b n j =
    let (actions, e) =
      process_file_data_ends setting (read_lines text).0 vlevel
        (setting_of-level system filename (pos vlevel) setting n) j in
    let (done, p, _) =
      perform_all-Advances (actions ++ return_actions system filename (read_lines text).1)
        (cleared_suppressions (pos vlevel) g) (unfold set_verbose_level in h) in
    (
      done_processing filename done,
      done.written,
      unfold process_file in rw (i, b, n, e, p) refl,
      unfold done_processing in refl,
    )
