-- ===== src/Nesting/Proper.antt =====
-- The reports of `Update` and `CheckClassFinished` are proper.
use dmanix.Base.{
  ℕ, Option-cases, zero, suc, List, [], ◌∷◌, Option, none, some, Text, mem_text, inl, inr,
}
use dmanix.Regex.Search.{match, group_text}
use dmanix.Regex.Chars.{◌⨾◌}
use dmanix.Lint.{Action}
use dmanix.Lint.Categories.{error_categories}
use dmanix.Lint.Proper.{Proper, ProperStep, nil-Proper, append-Proper, proper_rules}
use dmanix.Lines.{CleansedLines}
use dmanix.Nesting.{Kind, plain, class_kind, namespace_kind, BlockInfo, NestingState}
use dmanix.Nesting.Blocks.{check_namespace_end, check_end}
use dmanix.Nesting.Update.{
  with_actions, token_head, token_rest, token_stack, token_actions, close_actions, take_tokens,
  update_rest, bind_rest, with_stack, update, check_class_finished, unfinished,
}

check_end-Proper :
    (filename raw_line : Text) (linenum : ℕ) (kind : Kind)
    → Proper filename (check_end filename raw_line linenum kind)
unfolding check_namespace_end mem_text error_categories
check_end-Proper filename raw_line linenum (namespace_kind n) = search proper_rules
check_end-Proper filename raw_line linenum (class_kind c) = nil-Proper
check_end-Proper filename raw_line linenum plain = nil-Proper

close_actions-Proper :
    (filename raw_line : Text) (linenum : ℕ) (stack : List BlockInfo)
    → Proper filename (close_actions filename raw_line linenum stack)
close_actions-Proper filename raw_line linenum [] = nil-Proper
close_actions-Proper filename raw_line linenum (b ∷ stack) =
    check_end-Proper filename raw_line linenum b.kind

with_actions-Proper :
    (filename : Text) (actions : List Action) (o : Option (List BlockInfo × List Action))
    → Proper filename actions
    → ProperStep filename o
    → ProperStep filename (with_actions actions o)
with_actions-Proper filename actions none p q = tt
with_actions-Proper filename actions (some (stack, later)) p q = append-Proper p q

take_tokens-Proper :
    (fuel : ℕ) (filename raw_line : Text) (linenum : ℕ) (line : Text) (stack : List BlockInfo)
    → ProperStep filename (take_tokens fuel filename raw_line linenum line stack)
unfolding take_tokens
take_tokens-Proper zero filename raw_line linenum line stack = tt
take_tokens-Proper (suc fuel) filename raw_line linenum line stack =
    elim (Option-cases (match (token_head ⨾ token_rest) line)) [
      | inl e ↦ rw e nil-Proper
      | inr (m, e) ↦
          let stack' = token_stack (group_text m 1) line stack in
          rw e (
            with_actions-Proper filename
              (token_actions (group_text m 1) filename raw_line linenum stack)
              (take_tokens fuel filename raw_line linenum (group_text m 2) stack')
              (search (proper_rules, close_actions-Proper))
              (take_tokens-Proper fuel filename raw_line linenum (group_text m 2) stack'))
    ]

bind_rest-Proper :
    (filename : Text) (clean : CleansedLines) (linenum : ℕ) (o : Option (Text × List BlockInfo))
    → ProperStep filename (bind_rest o (update_rest filename clean linenum))
bind_rest-Proper filename clean linenum none = tt
bind_rest-Proper filename clean linenum (some (rest, stack)) =
    take_tokens-Proper _ filename _ linenum _ _

with_stack-Proper :
    (filename : Text) (s : NestingState) (o : Option (List BlockInfo × List Action))
    → ProperStep filename o
    → ProperStep filename (with_stack s o)
with_stack-Proper filename s none p = tt
with_stack-Proper filename s (some (stack, actions)) p = p

pub update-Proper :
    (filename : Text) (clean : CleansedLines) (linenum : ℕ) (s : NestingState)
    → ProperStep filename (update filename clean linenum s)
unfolding update
update-Proper filename clean linenum s = search (with_stack-Proper, bind_rest-Proper)

unfinished-Proper : (filename : Text) (kind : Kind) → Proper filename (unfinished filename kind)
unfolding mem_text error_categories
unfinished-Proper filename (class_kind c) = search proper_rules
unfinished-Proper filename (namespace_kind n) = nil-Proper
unfinished-Proper filename plain = nil-Proper

pub check_class_finished-Proper :
    (filename : Text) (stack : List BlockInfo)
    → Proper filename (check_class_finished filename stack)
unfolding check_class_finished
check_class_finished-Proper filename [] = nil-Proper
check_class_finished-Proper filename (b ∷ stack) =
    append-Proper (check_class_finished-Proper filename stack) (unfinished-Proper filename b.kind)
