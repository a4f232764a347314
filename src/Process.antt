-- ===== src/Process.antt =====
-- scripts/cpplint.py: `ProcessLine`, `ProcessFileData` and `ProcessFile`, without extra check functions, as `main`
-- calls them. A file's text, the system's paths and `unicodedata` are arguments.
pub mod Proper
pub mod Branches
pub mod Quiet
pub mod Finishes
pub mod Accounts
pub mod Options
pub mod Ends
pub mod File
pub mod Command
mod Samples
mod Examples
use dmanix.Base.{
  ℕ, zero, suc, ◌+◌, Bool, true, false, Option, none, some, List, [], ◌∷◌, ◌++◌, Text, codes,
  text_eq, get_or, if◌then◌else◌,
}
use dmanix.Base.Int.{ℤ}
use dmanix.Lint.{Action}
use dmanix.Lint.Suppress.{parse_nolint_suppressions}
use dmanix.Lines.{CleansedLines, cleansed_lines}
use dmanix.Comments.{remove_multi_line_comments}
use dmanix.Functions.{FunctionState, new_function_state}
use dmanix.Functions.Lines.{LengthOutcome, check_for_function_lengths}
use dmanix.Guard.{check_for_header_guard}
use dmanix.Headers.{IncludeState, new_include_state}
use dmanix.Nesting.{
  BlockInfo, InlineAsm, no_asm, inside_asm, end_asm, block_asm, NestingState, new_nesting_state,
}
use dmanix.Nesting.Update.{update, check_class_finished}
use dmanix.Needs.Check.{check_for_include_what_you_use}
use dmanix.Tokens.Lines.{
  check_for_multiline_comments_and_strings, check_posix_threading, check_invalid_increment,
  check_make_pair_uses_deduction,
}
use dmanix.Style.{check_style}
use dmanix.Style.Width.{UnicodeData}
use dmanix.Language.{FileNames, check_language}
use dmanix.Constructs.{check_for_non_standard_constructs}
use dmanix.Whole.{
  with_markers, check_for_copyright, check_for_unicode_replacement_characters,
  check_for_newline_at_eof,
}

-- include_state, function_state and nesting_state
pub record States : Type 0 where
  pub include_state : IncludeState
  pub function_state : FunctionState
  pub nesting_state : NestingState

abbrev pub new_states : States
new_states = record {
  include_state = new_include_state;
  function_state = new_function_state;
  nesting_state = new_nesting_state;
}

-- What a file's checks read beside its lines: its name and extension, the header guard's name, FileInfo's names, the
-- verbosity level, and the headers that can be opened.
pub record Setting : Type 0 where
  pub filename : Text
  pub file_extension : Text
  pub cppvar : Text
  pub full_name : Text
  pub names : FileNames
  pub verbose_level : ℤ
  pub unicodedata : UnicodeData
  pub open_file : Text → Option (List Text)

abbrev is_asm : InlineAsm → Bool
is_asm no_asm = false
is_asm inside_asm = true
is_asm end_asm = true
is_asm block_asm = true

-- nesting_state.stack and nesting_state.stack[-1].inline_asm != _NO_ASM
unfoldable pub in_assembly : List BlockInfo → Bool
in_assembly [] = false
in_assembly (b ∷ _) = is_asm b.inline_asm

-- What the line yields: `none` where a loop does not end, and for the exception of the check on a function's length.
abbrev pub LineOutcome : Type 0
LineOutcome = Option (States × List Action)

abbrev pub with_style : States → List Action → Option (List Action) → List Action → LineOutcome
with_style s before none after = none
with_style s before (some style) after = some (s, before ++ style ++ after)

abbrev pub with_lengths :
    States → LengthOutcome → List Action → Option (List Action) → List Action → LineOutcome
with_lengths s none tokens style after = none
with_lengths s (some (lengths, function_state)) tokens style after =
    with_style (record s { function_state = function_state }) (lengths ++ tokens) style after

-- The checks of a line outside assembly; `s` has the nesting state of this line already.
unfoldable pub check_line : Setting → CleansedLines → ℕ → States → LineOutcome
unfolding check_for_function_lengths check_for_multiline_comments_and_strings check_style
    check_language check_for_non_standard_constructs check_posix_threading check_invalid_increment
    check_make_pair_uses_deduction
check_line setting clean linenum s =
    let filename = setting.filename in
    let (language, include_state) =
      check_language filename setting.names clean linenum setting.file_extension s.include_state in
    with_lengths (record s { include_state = include_state })
      (check_for_function_lengths filename clean linenum setting.verbose_level s.function_state)
      (check_for_multiline_comments_and_strings filename clean linenum)
      (check_style setting.unicodedata filename clean linenum setting.file_extension setting.cppvar
        s.nesting_state)
      (language
        ++ check_for_non_standard_constructs filename clean linenum s.nesting_state
        ++ check_posix_threading filename clean linenum
        ++ check_invalid_increment filename clean linenum
        ++ check_make_pair_uses_deduction filename clean linenum)

abbrev pub after_actions : List Action → LineOutcome → LineOutcome
after_actions before none = none
after_actions before (some (s, actions)) = some (s, before ++ actions)

abbrev pub on_update :
    Setting → CleansedLines → ℕ → States → Option (NestingState × List Action) → LineOutcome
on_update setting clean linenum s none = none
on_update setting clean linenum s (some (nesting_state, actions)) =
    let s' = record s { nesting_state = nesting_state } in
    if in_assembly nesting_state.stack
    then some (s', actions)
    else after_actions actions (check_line setting clean linenum s')

-- ProcessLine(filename, file_extension, clean_lines, line, include_state, function_state, nesting_state, error)
unfoldable pub process_line : Setting → CleansedLines → ℕ → States → LineOutcome
unfolding parse_nolint_suppressions update in_assembly check_line
process_line setting clean line s =
    after_actions (parse_nolint_suppressions setting.filename (get_or clean.raw_lines line []) line)
      (on_update setting clean line s (update setting.filename clean line s.nesting_state))

abbrev pub bind_outcome : LineOutcome → (States → LineOutcome) → LineOutcome
bind_outcome none next = none
bind_outcome (some (s, actions)) next = after_actions actions (next s)

-- The loop over `count` lines from line `line` on.
unfoldable pub process_lines : Setting → CleansedLines → ℕ → ℕ → States → LineOutcome
unfolding process_line
process_lines setting clean zero line s = some (s, [])
process_lines setting clean (suc count) line s =
    bind_outcome (process_line setting clean line s) (process_lines setting clean count (line + 1))

-- The checks behind the loop.
unfoldable pub check_after_lines : Setting → CleansedLines → List Text → States → List Action
unfolding check_class_finished check_for_include_what_you_use
    check_for_unicode_replacement_characters check_for_newline_at_eof
check_after_lines setting clean lines s =
    check_class_finished setting.filename s.nesting_state.stack
    ++ check_for_include_what_you_use setting.open_file setting.full_name setting.filename clean
        s.include_state.included
    ++ check_for_unicode_replacement_characters setting.filename lines
    ++ check_for_newline_at_eof setting.filename lines

abbrev pub finish_file :
    Setting → CleansedLines → List Text → List Action → LineOutcome → Option (List Action)
finish_file setting clean lines before none = none
finish_file setting clean lines before (some (s, actions)) =
    some (before ++ actions ++ check_after_lines setting clean lines s)

-- RemoveMultiLineComments changes `lines` in place, so what follows reads the cleared lines.
abbrev pub with_cleared :
    Setting → List Action → Option (List Text × List Action) → Option (List Action)
with_cleared setting before none = none
with_cleared setting before (some (lines, actions)) =
    let clean = cleansed_lines lines in
    finish_file setting clean lines (before ++ actions)
      (process_lines setting clean clean.num_lines 0 new_states)

-- ProcessFileData(filename, file_extension, lines, error), behind ResetNolintSuppressions
unfoldable pub process_file_data : Setting → List Text → Option (List Action)
unfolding with_markers check_for_copyright check_for_header_guard remove_multi_line_comments
    cleansed_lines process_lines check_after_lines text_eq
process_file_data setting lines =
    let marked = with_markers lines in
    with_cleared setting
      (check_for_copyright setting.filename marked
        ++ (if text_eq setting.file_extension (codes "h")
            then check_for_header_guard setting.filename marked setting.cppvar
            else []))
      (remove_multi_line_comments setting.filename marked)
