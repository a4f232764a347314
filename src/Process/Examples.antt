-- ===== src/Process/Examples.antt =====
-- The theorems on whole files at inputs, and tests.
use dmanix.Base.{
  ℕ, zero, suc, ◌+◌, ◌<◌, ◌≡◌, ◌≢◌, refl, true, not, none, some, List, [], ◌∷◌, ◌++◌, Text, codes,
  length, All, decimal, split_char, ◌==◌, text_eq, arith, inr,
}
use dmanix.Regex.Search.{matches}
use dmanix.Base.Int.{pos, negsuc}
use dmanix.Lint.{Action, Globals, total}
use dmanix.Lint.Filters.{strip_bytes, has_sign, filter_loop}
use dmanix.Lint.Suppress.{is_error_suppressed_by_nolint}
use dmanix.Lint.Filters.Priority.{Signed}
use dmanix.Lint.Counts.{CountsAgree, increment_error_count, set_verbose_level, print_error_counts}
use dmanix.Lint.Emit.{error_line, should_print_error, print_error, perform_all}
use dmanix.Lint.Proper.{Proper}
use dmanix.Lines.{cleansed_lines}
use dmanix.Comments.{remove_multi_line_comments}
use dmanix.Whole.{with_markers, read_lines}
use dmanix.Process.{process_file_data}
use dmanix.Process.Proper.{process_file_data-Proper}
use dmanix.Process.Ends.{Joins, process_file_data_ends}
use dmanix.Process.File.{setting_of, is_ignored, input_of, process_file}
use dmanix.Process.Finishes.{process_file_finishes}
use dmanix.Process.Quiet.{process_file-quiet}
use dmanix.Process.Command.{goes_on, exits, usage, print_categories, parse_arguments, main}
use dmanix.Process.Accounts.{sum_notices, main-accounts}
use dmanix.Process.Options.{parse_arguments-Signed}
use dmanix.Process.Samples.{
  setting_a, tight_lines, tight_reports, system_a, globals_a, globals_quiet, globals_done,
  three_files, options_a, globals_parsed, setting_of_a, text_a,
}

tight_file : process_file_data setting_a tight_lines ≡ some tight_reports
unfolding process_file_data
tight_file = refl

process_file_data-Proper_example : Proper (codes "a.cc") tight_reports
process_file_data-Proper_example =
    process_file_data-Proper setting_a tight_lines tight_reports tight_file

-- A file whose first line is an indented pair of braces with a semicolon is never done with.
hanging_file : process_file_data setting_a (codes " {};" ∷ [] ∷ []) ≡ none
unfolding process_file_data
hanging_file = refl

tight_line-Joins :
    (k : ℕ)
    → k < length (with_markers tight_lines)
    → Joins (cleansed_lines (with_markers tight_lines)) k
unfolding with_markers cleansed_lines matches
tight_line-Joins zero h = inr refl
tight_line-Joins (suc zero) h = inr refl
tight_line-Joins (suc (suc zero)) h = inr refl
tight_line-Joins (suc (suc (suc zero))) h = inr refl
tight_line-Joins (suc (suc (suc (suc k)))) h = absurd (omega arith)

tight_file-Joins :
    (after : List Text) (reports : List Action)
    → remove_multi_line_comments (codes "a.cc") (with_markers tight_lines) ≡ some (after, reports)
    → (k : ℕ) → k < length after
    → Joins (cleansed_lines after) k
tight_file-Joins after reports e k h =
    let kept : remove_multi_line_comments (codes "a.cc") (with_markers tight_lines)
        ≡ some (with_markers tight_lines, []) =
      unfold remove_multi_line_comments with_markers in refl in
    let same : after ≡ with_markers tight_lines = cc in rw same (tight_line-Joins k (rw same at h))

process_file_data_ends_example :
    (actions : List Action) × (process_file_data setting_a tight_lines ≡ some actions)
process_file_data_ends_example =
    process_file_data_ends setting_a tight_lines 0 refl tight_file-Joins

quiet_file : process_file system_a (codes "a.cc") (pos 6) globals_a ≡ some globals_quiet
unfolding process_file text_eq is_error_suppressed_by_nolint
quiet_file = refl

process_file-quiet_example : globals_quiet.state ≡ (set_verbose_level (pos 6) globals_a.state).1
process_file-quiet_example =
    process_file-quiet system_a (codes "a.cc") 6 globals_a globals_quiet (omega arith) quiet_file

three_files_run : main system_a globals_a three_files ≡ some (globals_done, true)
unfolding main text_eq is_error_suppressed_by_nolint filter_loop increment_error_count error_line
    print_error_counts decimal should_print_error print_error
three_files_run = refl

main-accounts_example :
    (length globals_done.written
      ≡ length globals_a.written
        + (sum_notices system_a three_files
            + (globals_done.state.error_count + length (print_error_counts globals_done.state))))
    × CountsAgree globals_done.state
    × (true ≡ not (globals_done.state.error_count == 0))
main-accounts_example =
    main-accounts system_a globals_a globals_done three_files true (unfold has_sign in (refl, tt))
      three_files_run

options_parsed :
    parse_arguments (λ t. some (pos 3)) globals_a.state (some (options_a, codes "a.cc" ∷ []))
    ≡ goes_on (globals_parsed.state, codes "a.cc" ∷ [])
unfolding parse_arguments split_char strip_bytes
options_parsed = refl

parse_arguments-Signed_example :
    All Signed globals_parsed.state.filters
    × (codes "a.cc" ∷ [] ≢ [])
    × (codes "a.cc" ∷ [] ≡ codes "a.cc" ∷ [])
    × ((g : Globals) × (perform_all tight_reports globals_parsed ≡ some g))
parse_arguments-Signed_example =
    parse_arguments-Signed (λ t. some (pos 3)) globals_a.state options_a (codes "a.cc" ∷ [])
      (codes "a.cc" ∷ []) globals_parsed tight_reports options_parsed

no_files :
    parse_arguments (λ t. some (pos 3)) globals_a.state (some (options_a, []))
    ≡ exits (usage (some (codes "No files were specified.")))
unfolding parse_arguments split_char strip_bytes
no_files = refl

empty_filter :
    parse_arguments (λ t. some (pos 3)) globals_a.state (some ((codes "--filter", []) ∷ [], []))
    ≡ exits print_categories
unfolding parse_arguments split_char strip_bytes
empty_filter = refl

text_a-Joins :
    (after : List Text) (reports : List Action)
    → remove_multi_line_comments (codes "a.cc") (with_markers (read_lines text_a).0)
      ≡ some (after, reports)
    → (k : ℕ) → k < length after
    → Joins (cleansed_lines after) k
unfolding read_lines
text_a-Joins = tight_file-Joins

process_file_finishes_example :
    (g' : Globals) × (front : List Text) × (process_file system_a (codes "a.cc") (pos 0) globals_a
      ≡ some g')
    × (g'.written ≡ front ++ (codes "Done processing " ++ codes "a.cc" ++ 10 ∷ []) ∷ [])
unfolding has_sign input_of is_ignored setting_of text_eq
process_file_finishes_example =
    process_file_finishes system_a (codes "a.cc") 0 globals_a text_a setting_of_a (refl, tt) refl
      refl refl text_a-Joins

negative_level :
    parse_arguments
      (λ t. some (negsuc 0))
      globals_a.state
      (some ((codes "--verbose", codes "-1") ∷ [], codes "a.cc" ∷ []))
    ≡ goes_on
        (record globals_a.state { verbose_level = negsuc 0; counting = total }, codes "a.cc" ∷ [])
unfolding parse_arguments split_char strip_bytes
negative_level = refl
