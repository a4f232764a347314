-- ===== src/Process/Proper.antt =====
-- The reports of `ProcessFileData` are proper.
use dmanix.Base.{ℕ, zero, suc, ◌+◌, ◌++◌, ◌≡◌, List, [], Option, none, some, Text, get_or}
use dmanix.Lint.{Action}
use dmanix.Lint.Proper.{
  Proper, ProperIfSome, ProperStep, nil-Proper, append-Proper, if_first-Proper, if-ProperStep,
  proper_rules,
}
use dmanix.Lines.{CleansedLines}
use dmanix.Comments.{remove_multi_line_comments}
use dmanix.Lines.{cleansed_lines}
use dmanix.Nesting.{NestingState}
use dmanix.Headers.{IncludeState}
use dmanix.Lint.Suppress.Proper.{parse_nolint_suppressions-Proper}
use dmanix.Nesting.Proper.{update-Proper, check_class_finished-Proper}
use dmanix.Functions.Lines.{LengthOutcome, check_for_function_lengths}
use dmanix.Functions.Proper.{LengthProper, check_for_function_lengths-Proper}
use dmanix.Tokens.Proper.{
  check_for_multiline_comments_and_strings-Proper, check_posix_threading-Proper,
  check_invalid_increment-Proper, check_make_pair_uses_deduction-Proper,
}
use dmanix.Style.{check_style}
use dmanix.Style.Proper.{check_style-Proper}
use dmanix.Headers.Proper.{check_include_line-Proper}
use dmanix.Language.{FileNames, check_language}
use dmanix.Language.Proper.{check_code-Proper}
use dmanix.Constructs.Proper.{check_for_non_standard_constructs-Proper}
use dmanix.Guard.Proper.{check_for_header_guard-Proper}
use dmanix.Whole.{with_markers}
use dmanix.Whole.Proper.{
  check_for_copyright-Proper, check_for_unicode_replacement_characters-Proper,
  check_for_newline_at_eof-Proper, remove_multi_line_comments-Proper,
  check_for_include_what_you_use-Proper,
}
use dmanix.Process.{
  States, new_states, Setting, with_style, with_lengths, check_line, LineOutcome, after_actions,
  on_update, process_line, bind_outcome, process_lines, check_after_lines, finish_file,
  with_cleared, process_file_data,
}

check_language-Proper :
    (filename : Text) (names : FileNames) (clean : CleansedLines) (linenum : ℕ)
    (file_extension : Text) (include_state : IncludeState)
    → Proper filename (check_language filename names clean linenum file_extension include_state).0
unfolding check_language
check_language-Proper filename names clean linenum file_extension include_state =
    search (proper_rules, if_first-Proper, check_include_line-Proper, check_code-Proper)

with_style-Proper :
    (filename : Text) (s : States) (before after : List Action) (o : Option (List Action))
    → Proper filename before
    → ProperIfSome filename o
    → Proper filename after
    → ProperStep filename (with_style s before o after)
with_style-Proper filename s before after none p q r = tt
with_style-Proper filename s before after (some style) p q r = append-Proper (append-Proper p q) r

ruleset line_rules = (
  proper_rules, check_for_multiline_comments_and_strings-Proper, check_language-Proper,
  check_for_non_standard_constructs-Proper, check_posix_threading-Proper,
  check_invalid_increment-Proper, check_make_pair_uses_deduction-Proper,
)

with_lengths-Proper :
    (filename : Text) (s : States) (tokens after : List Action) (o : LengthOutcome)
    (style : Option (List Action))
    → LengthProper filename o
    → Proper filename tokens
    → ProperIfSome filename style
    → Proper filename after
    → ProperStep filename (with_lengths s o tokens style after)
with_lengths-Proper filename s tokens after none style p q r t = tt
with_lengths-Proper filename s tokens after (some (lengths, function_state)) style p q r t =
    with_style-Proper filename _ _ _ style (append-Proper p q) r t

check_line-Proper :
    (setting : Setting) (clean : CleansedLines) (linenum : ℕ) (s : States)
    → ProperStep setting.filename (check_line setting clean linenum s)
unfolding check_line
check_line-Proper setting clean linenum s =
    let included : IncludeState =
      (check_language setting.filename setting.names clean linenum setting.file_extension
        s.include_state).1 in
    with_lengths-Proper setting.filename (record s { include_state = included }) _ _
      (check_for_function_lengths setting.filename clean linenum setting.verbose_level
        s.function_state)
      (check_style setting.unicodedata setting.filename clean linenum setting.file_extension
        setting.cppvar s.nesting_state)
      (check_for_function_lengths-Proper setting.filename clean linenum setting.verbose_level
        s.function_state)
      (search line_rules)
      (check_style-Proper setting.unicodedata setting.filename clean linenum setting.file_extension
        setting.cppvar s.nesting_state)
      (search line_rules depth 8)

after_actions-Proper :
    (filename : Text) (before : List Action) (o : LineOutcome)
    → Proper filename before
    → ProperStep filename o
    → ProperStep filename (after_actions before o)
after_actions-Proper filename before none p q = tt
after_actions-Proper filename before (some (s, actions)) p q = append-Proper p q

on_update-Proper :
    (setting : Setting) (clean : CleansedLines) (linenum : ℕ) (s : States)
    (o : Option (NestingState × List Action))
    → ProperStep setting.filename o
    → ProperStep setting.filename (on_update setting clean linenum s o)
on_update-Proper setting clean linenum s none p = tt
on_update-Proper setting clean linenum s (some (nesting_state, actions)) p =
    let q : Proper setting.filename actions = p in
    search (if-ProperStep, after_actions-Proper, check_line-Proper)

process_line-Proper :
    (setting : Setting) (clean : CleansedLines) (line : ℕ) (s : States)
    → ProperStep setting.filename (process_line setting clean line s)
unfolding process_line
process_line-Proper setting clean line s =
    after_actions-Proper setting.filename _ _
      (parse_nolint_suppressions-Proper setting.filename (get_or clean.raw_lines line []) line)
      (on_update-Proper setting clean line s _
        (update-Proper setting.filename clean line s.nesting_state))

bind_outcome-Proper :
    (filename : Text) (o : LineOutcome) (next : States → LineOutcome)
    → ProperStep filename o
    → ((s : States) → ProperStep filename (next s))
    → ProperStep filename (bind_outcome o next)
bind_outcome-Proper filename none next p q = tt
bind_outcome-Proper filename (some (s, actions)) next p q =
    after_actions-Proper filename actions (next s) p (q s)

process_lines-Proper :
    (setting : Setting) (clean : CleansedLines) (count line : ℕ) (s : States)
    → ProperStep setting.filename (process_lines setting clean count line s)
unfolding process_lines
process_lines-Proper setting clean zero line s = nil-Proper
process_lines-Proper setting clean (suc count) line s =
    bind_outcome-Proper setting.filename (process_line setting clean line s)
      (process_lines setting clean count (line + 1)) (process_line-Proper setting clean line s)
      (process_lines-Proper setting clean count (line + 1))

check_after_lines-Proper :
    (setting : Setting) (clean : CleansedLines) (lines : List Text) (s : States)
    → Proper setting.filename (check_after_lines setting clean lines s)
unfolding check_after_lines
check_after_lines-Proper setting clean lines s = search (
  proper_rules, check_class_finished-Proper, check_for_include_what_you_use-Proper,
  check_for_unicode_replacement_characters-Proper, check_for_newline_at_eof-Proper,
)

finish_file-Proper :
    (setting : Setting) (clean : CleansedLines) (lines : List Text) (before : List Action)
    (o : LineOutcome)
    → Proper setting.filename before
    → ProperStep setting.filename o
    → ProperIfSome setting.filename (finish_file setting clean lines before o)
finish_file-Proper setting clean lines before none p q = tt
finish_file-Proper setting clean lines before (some (s, actions)) p q =
    append-Proper (append-Proper p q) (check_after_lines-Proper setting clean lines s)

with_cleared-Proper :
    (setting : Setting) (before : List Action) (o : Option (List Text × List Action))
    → Proper setting.filename before
    → ProperStep setting.filename o
    → ProperIfSome setting.filename (with_cleared setting before o)
with_cleared-Proper setting before none p q = tt
with_cleared-Proper setting before (some (lines, actions)) p q =
    finish_file-Proper setting (cleansed_lines lines) lines (before ++ actions) _
      (append-Proper p q) (process_lines-Proper setting (cleansed_lines lines) _ 0 new_states)

-- Every call that ProcessFileData makes of `error` names the file, has a category of the table of error
-- categories and a confidence of at most 5; and every suppression that it notes is one of all categories or of a
-- category of the table.
pub process_file_data-Proper :
    (setting : Setting) (lines : List Text) (actions : List Action)
    → process_file_data setting lines ≡ some actions
    → Proper setting.filename actions
process_file_data-Proper setting lines actions e =
    let all : ProperIfSome setting.filename (process_file_data setting lines) =
      unfold process_file_data in
      with_cleared-Proper setting _
        (remove_multi_line_comments setting.filename (with_markers lines))
        (search (proper_rules, check_for_copyright-Proper, check_for_header_guard-Proper))
        (remove_multi_line_comments-Proper setting.filename (with_markers lines)) in
    rw e at all
