-- ===== src/Nesting/Terminates.antt =====
-- `Update` always ends: each loop goes on with a shorter text.
use dmanix.Base.{
  ℕ, zero, suc, ◌+◌, ◌≤◌, ◌<◌, ◌≡◌, refl, inl, inr, Option, none, some, List, [], ◌++◌, Text, codes,
  find, length, length-drop, get_or, Option-cases, arith,
}
use dmanix.Regex.Chars.{◌⨾◌}
use dmanix.Regex.Search.{match, group_text}
use dmanix.Regex.Bounds.{group_text-shorter}
use dmanix.Lint.{Action}
use dmanix.Lines.{CleansedLines}
use dmanix.Nesting.{BlockInfo, NestingState}
use dmanix.Nesting.Preprocessor.{update_preprocessor}
use dmanix.Nesting.Blocks.{count_parentheses}
use dmanix.Nesting.Declarations.{
  namespace_head, namespace_rest, cut_brace, after_namespace, push_namespace, take_namespaces,
  take_class, update_access,
}
use dmanix.Nesting.Update.{
  token_head, token_rest, token_stack, token_actions, take_tokens, update_rest, begin_head, update,
}

cut_brace_le : (line : Text) (o : Option ℕ) → length (cut_brace line o) ≤ length line
cut_brace_le line none = omega arith
cut_brace_le line (some i) = omega (arith, length-drop (i + 1) line)

pub take_namespaces_ends :
    (fuel linenum : ℕ) (line : Text) (stack : List BlockInfo)
    → length line < fuel
    → (r : Text × List BlockInfo) × (take_namespaces fuel linenum line stack ≡ some r)
unfolding take_namespaces
take_namespaces_ends zero linenum line stack h = absurd (omega arith)
take_namespaces_ends (suc fuel) linenum line stack h =
    elim (Option-cases (match (namespace_head ⨾ namespace_rest) line)) [
      | inl e ↦ ((line, stack), rw e)
      | inr (m, e) ↦
          let shorter = group_text-shorter namespace_head namespace_rest 2 line m refl refl e in
          let cut = cut_brace_le (group_text m 2) (find (group_text m 2) (codes "{")) in
          let (r, q) =
            take_namespaces_ends fuel linenum (after_namespace (group_text m 2))
              (push_namespace m linenum stack) (omega arith) in
          (r, rw e q)
    ]

pub take_tokens_ends :
    (fuel : ℕ) (filename raw_line : Text) (linenum : ℕ) (line : Text) (stack : List BlockInfo)
    → length line < fuel
    → (r : List BlockInfo × List Action) × (take_tokens fuel filename raw_line linenum line stack
        ≡ some r)
unfolding take_tokens
take_tokens_ends zero filename raw_line linenum line stack h = absurd (omega arith)
take_tokens_ends (suc fuel) filename raw_line linenum line stack h =
    elim (Option-cases (match (token_head ⨾ token_rest) line)) [
      | inl e ↦ ((stack, []), rw e)
      | inr (m, e) ↦
          let shorter = group_text-shorter token_head token_rest 2 line m refl refl e in
          let ((stack', later), q) =
            take_tokens_ends fuel filename raw_line linenum (group_text m 2)
              (token_stack (group_text m 1) line stack) (omega arith) in
          (
            (stack', token_actions (group_text m 1) filename raw_line linenum stack ++ later),
            rw e (rw q),
          )
    ]

rest_ends :
    (filename : Text) (clean : CleansedLines) (linenum : ℕ) (r : Text × List BlockInfo)
    → (q : List BlockInfo × List Action) × (update_rest filename clean linenum r ≡ some q)
rest_ends filename clean linenum (rest, stack) =
    let taken = take_class clean linenum rest stack in
    take_tokens_ends (suc (length taken.0)) filename (get_or clean.raw_lines linenum []) linenum
      taken.0 (update_access taken.0 (begin_head (get_or clean.elided linenum []) taken.1))
      (omega arith)

-- `Update` ends on every line of every file, and it leaves the saved stacks as its directive does.
pub update_ends :
    (filename : Text) (clean : CleansedLines) (linenum : ℕ) (s : NestingState)
    → (s' : NestingState) × (actions : List Action) × (update filename clean linenum s
        ≡ some (s', actions))
      × (s'.pp_stack ≡ (update_preprocessor (get_or clean.elided linenum []) s).pp_stack)
update_ends filename clean linenum s =
    let line = get_or clean.elided linenum [] in
    let directed = update_preprocessor line s in
    let (r, e) =
      take_namespaces_ends (suc (length line)) linenum line (count_parentheses line directed.stack)
        (omega arith) in
    let ((stack, actions), q) = rest_ends filename clean linenum r in
    (record directed { stack = stack }, actions, unfold update in rw e (rw q), refl)
