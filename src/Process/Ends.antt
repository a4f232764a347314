-- ===== src/Process/Ends.antt =====
-- Processing a file ends.
use dmanix.Base.{
  Option-cases, inl, inr, ℕ, zero, suc, ◌+◌, ◌≤◌, ◌<◌, ◌≡◌, ◌⊎◌, refl, Bool, true, false, Option,
  none, some, List, [], Text, get_or, length, ◌==◌, count_char, arith, if◌then◌else◌,
}
use dmanix.Regex.Search.{matches}
use dmanix.Base.Int.{pos}
use dmanix.Lint.{Action}
use dmanix.Lines.{CleansedLines, cleansed_lines}
use dmanix.Comments.{remove_multi_line_comments}
use dmanix.Comments.Cleared.{remove_multi_line_comments-Outcome}
use dmanix.Functions.{FunctionState, check_function}
use dmanix.Functions.Lines.{LengthOutcome, no_body, with_state, check_for_function_lengths}
use dmanix.Functions.Level.{check_function-iff-Raises}
use dmanix.Nesting.{NestingState}
use dmanix.Nesting.Update.{update}
use dmanix.Nesting.Terminates.{update_ends}
use dmanix.Layout.{is_blank_line, re_indented_braces, check_braces}
use dmanix.Layout.Joining.{check_braces_ends}
use dmanix.Style.{style_around, check_style}
use dmanix.Whole.{with_markers}
use dmanix.Process.{
  States, new_states, Setting, LineOutcome, with_style, with_lengths, check_line, after_actions,
  on_update, process_line, bind_outcome, process_lines, finish_file, process_file_data,
}

-- A line before this one holds a semicolon, or this line is not an indented pair of braces with a semicolon.
abbrev pub Joins : CleansedLines → ℕ → Type 0
Joins clean linenum =
    ((k : ℕ) × (k < linenum)
      × (is_blank_line (get_or clean.elided k []) ≡ false)
      × ((count_char b';' (get_or clean.elided k []) == 0) ≡ false))
    ⊎ (matches re_indented_braces (get_or clean.elided linenum []) ≡ false)

abbrev Ends : {A : Type 0} → Option A → Type 0
Ends {A} o = (a : A) × (o ≡ some a)

style_around-Ends :
    (before after : List Action) (o : Option (List Action))
    → Ends o
    → Ends (style_around before o after)
style_around-Ends before after none (_, e) = absurd (cc)
style_around-Ends before after (some actions) h = (_, refl)

with_style-Ends :
    (s : States) (before after : List Action) (o : Option (List Action))
    → Ends o
    → Ends (with_style s before o after)
with_style-Ends s before after none (_, e) = absurd (cc)
with_style-Ends s before after (some actions) h = (_, refl)

after_actions-Ends :
    (before : List Action) (o : LineOutcome) → Ends o → Ends (after_actions before o)
after_actions-Ends before none (_, e) = absurd (cc)
after_actions-Ends before (some (s, actions)) h = (_, refl)

if-Ends : {A : Type 0} (b : Bool) (p q : Option A) → Ends p → Ends q → Ends (if b then p else q)
if-Ends true p q h k = h
if-Ends false p q h k = k

-- At a level that is not negative the check on a function's length raises no exception.
check_function-Ends :
    (filename : Text) (linenum vlevel : ℕ) (s : FunctionState)
    → Ends (check_function filename linenum (pos vlevel) s)
check_function-Ends filename linenum vlevel s =
    elim (Option-cases (check_function filename linenum (pos vlevel) s)) [
      | inl e ↦ absurd ((check_function-iff-Raises filename linenum (pos vlevel) s).0 e)
      | inr r ↦ r
    ]

no_body-Ends :
    (filename : Text) (linenum : ℕ) (r : FunctionState × Bool) → Ends (no_body filename linenum r)
no_body-Ends filename linenum (s, true) = (_, refl)
no_body-Ends filename linenum (s, false) = (_, refl)

with_state-Ends : (s : FunctionState) (o : Option (List Action)) → Ends o → Ends (with_state s o)
with_state-Ends s none (_, e) = absurd (cc)
with_state-Ends s (some actions) h = (_, refl)

some-Ends : {A : Type 0} (a : A) → Ends (some a)
some-Ends a = (a, refl)

check_for_function_lengths-Ends :
    (filename : Text) (clean : CleansedLines) (linenum vlevel : ℕ) (s : FunctionState)
    → Ends (check_for_function_lengths filename clean linenum (pos vlevel) s)
unfolding check_for_function_lengths
check_for_function_lengths-Ends filename clean linenum vlevel s =
    search (if-Ends, no_body-Ends, with_state-Ends, check_function-Ends, some-Ends)

with_lengths-Ends :
    (s : States) (o : LengthOutcome) (tokens : List Action) (style : Option (List Action))
    (after : List Action)
    → Ends o
    → Ends style
    → Ends (with_lengths s o tokens style after)
with_lengths-Ends s none tokens style after (_, e) k = absurd (cc)
with_lengths-Ends s (some (lengths, function_state)) tokens style after h k =
    with_style-Ends _ _ _ style k

bind_outcome-Ends :
    (o : LineOutcome) (next : States → LineOutcome)
    → Ends o
    → ((s : States) → Ends (next s))
    → Ends (bind_outcome o next)
bind_outcome-Ends none next (_, e) k = absurd (cc)
bind_outcome-Ends (some (s, actions)) next h k = after_actions-Ends actions (next s) (k s)

ruleset ends_rules =
    (style_around-Ends, with_lengths-Ends, after_actions-Ends, if-Ends, bind_outcome-Ends)

check_line-Ends :
    (setting : Setting) (vlevel : ℕ) (clean : CleansedLines) (linenum : ℕ) (s : States)
    → setting.verbose_level ≡ pos vlevel
    → Joins clean linenum
    → Ends (check_line setting clean linenum s)
unfolding check_line check_style
check_line-Ends setting vlevel clean linenum s v j =
    let braces : Ends (check_braces (suc linenum) setting.filename clean linenum) =
      check_braces_ends (suc linenum) setting.filename clean linenum (omega arith) j in
    let lengths : Ends (
        check_for_function_lengths setting.filename clean linenum setting.verbose_level
          s.function_state) =
      rw v
        (check_for_function_lengths-Ends setting.filename clean linenum vlevel s.function_state) in
    search (ends_rules, braces, lengths)

on_update-Ends :
    (setting : Setting) (vlevel : ℕ) (clean : CleansedLines) (linenum : ℕ) (s : States)
    (o : Option (NestingState × List Action))
    → setting.verbose_level ≡ pos vlevel
    → Joins clean linenum
    → Ends o
    → Ends (on_update setting clean linenum s o)
on_update-Ends setting vlevel clean linenum s none v j (_, e) = absurd (cc)
on_update-Ends setting vlevel clean linenum s (some (nesting_state, actions)) v j h =
    let s' = record s { nesting_state = nesting_state } in
    let now : Ends {A = States × List Action} (some (s', actions)) = ((s', actions), refl) in
    search (ends_rules, now, check_line-Ends setting vlevel clean linenum s' v j)

process_line-Ends :
    (setting : Setting) (vlevel : ℕ) (clean : CleansedLines) (line : ℕ) (s : States)
    → setting.verbose_level ≡ pos vlevel
    → Joins clean line
    → Ends (process_line setting clean line s)
unfolding process_line
process_line-Ends setting vlevel clean line s v j =
    let (nesting_state, actions, e, _) = update_ends setting.filename clean line s.nesting_state in
    let updated : Ends (update setting.filename clean line s.nesting_state) =
      ((nesting_state, actions), e) in
    search (ends_rules, on_update-Ends setting vlevel, updated)

process_lines-Ends :
    (setting : Setting) (vlevel : ℕ) (clean : CleansedLines) (count line : ℕ) (s : States)
    → setting.verbose_level ≡ pos vlevel
    → ((k : ℕ) → line ≤ k → k < line + count → Joins clean k)
    → Ends (process_lines setting clean count line s)
unfolding process_lines
process_lines-Ends setting vlevel clean zero line s v j = (_, refl)
process_lines-Ends setting vlevel clean (suc count) line s v j =
    bind_outcome-Ends (process_line setting clean line s)
      (process_lines setting clean count (line + 1))
      (process_line-Ends setting vlevel clean line s v (j line (omega arith) (omega arith)))
      (λ s'.
        process_lines-Ends setting vlevel clean count (line + 1) s' v
          (λ k l h. j k (omega arith) (omega arith)))

finish_file-Ends :
    (setting : Setting) (clean : CleansedLines) (lines : List Text) (before : List Action)
    (o : LineOutcome)
    → Ends o
    → Ends (finish_file setting clean lines before o)
finish_file-Ends setting clean lines before none (_, e) = absurd (cc)
finish_file-Ends setting clean lines before (some (s, actions)) h = (_, refl)

-- ProcessFileData ends at a level that is not negative on a file where, for each line that is left when the multi-line comments are cleared, a line
-- before it that is not blank holds a semicolon or the line is not an indented pair of braces with a semicolon.
pub process_file_data_ends :
    (setting : Setting) (lines : List Text) (vlevel : ℕ)
    → setting.verbose_level ≡ pos vlevel
    → ((after : List Text) (reports : List Action)
        → remove_multi_line_comments setting.filename (with_markers lines) ≡ some (after, reports)
        → (k : ℕ) → k < length after
        → Joins (cleansed_lines after) k)
    → (actions : List Action) × (process_file_data setting lines ≡ some actions)
unfolding process_file_data
process_file_data_ends setting lines vlevel v j =
    let (after, reports, e, _) =
      remove_multi_line_comments-Outcome setting.filename (with_markers lines) in
    let clean = cleansed_lines after in
    rw e (
      finish_file-Ends setting clean after _
        (process_lines setting clean clean.num_lines 0 new_states)
        (process_lines-Ends setting vlevel clean clean.num_lines 0 new_states v
          (λ k l h. j after reports e k (omega (arith, h)))))
